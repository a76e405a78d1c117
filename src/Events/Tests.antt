-- ===== src/Events/Tests.antt =====
-- The wire format on concrete events.
use etos_api.Prelude.{[], ◌∷◌, ◌≡◌, refl, arith, codes, pos}
use etos_api.Prelude.Decimal.{signed_decimal}
use etos_api.Events.{Event, write}
use etos_api.Events.Wire.{read, write_all, read-write_all}

abbrev log_event : Event
log_event = record { id = pos 12; event = codes "log"; data_text = codes "{}" }

abbrev ping_event : Event
ping_event = record { id = pos 0; event = codes "ping"; data_text = [] }

written : write log_event ≡ codes "id: 12\nevent: log\ndata: {}\n\n"
unfolding write signed_decimal
written = refl

read-write_all_example :
    read (write_all (log_event ∷ ping_event ∷ [])) ≡ log_event ∷ ping_event ∷ []
read-write_all_example = read-write_all (log_event ∷ ping_event ∷ []) (
  record {
    number = 12;
    id = refl;
    in_range = omega arith;
    event = omega arith;
    data_text = omega arith;
  },
  (
    record {
      number = 0;
      id = refl;
      in_range = omega arith;
      event = omega arith;
      data_text = omega arith;
    },
    tt,
  ),
)
