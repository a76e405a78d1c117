-- ===== src/Iut/Cycle.antt =====
-- `Start`, `Status` and `Stop` of pkg/iut/v1alpha1/v1alpha1.go one after another.
use etos_api.Prelude.{
  inl, inr, ℕ, zero, suc, ◌≡◌, ◌≢◌, refl, ap, ◌∙◌, arith, Bool, true, false, Option, none, some,
  List, Text, ℤ, pos, negsuc,
}
use etos_api.Database.{
  Error, Answer, applied, lost, unheard, first_answer, Uuids, Kv, Etcd, open_id, World, moved_on,
  key, write, delete, request, change_by,
}
use etos_api.Space.{value, Codec}
use etos_api.Space.Saves.{Saved, write-Saved}
use etos_api.Iut.{
  Identifier, StartRequest, copies, first_status, written, with_purl, start_by, start, bytes_of,
  read_by, read_named, decoded_status, status_by, status, deleted, stop,
}

module _ (kv : Kv) (uuids : Uuids) (db : Etcd) (Purl : Type 0) (from_string : Text → Option Purl)
    (codec : Codec (List Purl)) where
  abbrev at : ℕ → Text
  at id = key kv uuids (open_id db id)

  -- A start that answered 200 has stored the IUTs.
  pub record Stored (i : Identifier) (body : Option StartRequest) (store : kv.State) : Type 0 where
    pub request_of : StartRequest
    pub amount : ℕ
    pub purl : Purl
    pub parsed : i.parsed ≡ true
    pub named : i.id ≢ 0
    pub decoded : body ≡ some request_of
    pub asked : request_of.minimum_amount ≡ pos amount
    pub identity : from_string request_of.artifact_identity ≡ some purl
    pub stored :
        kv.get (key kv uuids (open_id db i.id)) store ≡ some (codec.encode (copies amount purl))

  written-ok :
      (k v : Text) (w : World kv) (p : Option Error × World kv)
      → Saved kv k v w p
      → (written kv uuids db p).0 ≡ 200
      → kv.get k (written kv uuids db p).1.store ≡ some v
  written-ok k v w (some e, later) s h = absurd (omega (arith, h))
  written-ok k v w (none, later) (inl put) h = ap (kv.get k) put ∙ kv.get_put k v w.store
  written-ok k v w (none, later) (inr (same, bad)) h = absurd (bad refl)

  written-named :
      (id : ℕ) (v : Text) (w : World kv)
      → (written kv uuids db (write kv uuids (open_id db id) v w)).0 ≡ 200
      → id ≢ 0
  unfolding write open_id
  written-named zero v w h e = omega (arith, h)
  written-named (suc n) v w h e = omega (arith, e)

  with_purl-Stored :
      (i : Identifier) (r : StartRequest) (amount : ℤ) (o : Option Purl) (w : World kv)
      → i.parsed ≡ true
      → r.minimum_amount ≡ amount
      → from_string r.artifact_identity ≡ o
      → (with_purl kv uuids db Purl from_string codec i amount o w).0 ≡ 200
      → Stored i (some r) (with_purl kv uuids db Purl from_string codec i amount o w).1.store
  with_purl-Stored i r amount none w ok asked identity h = absurd (omega (arith, h))
  with_purl-Stored i r (negsuc n) (some purl) w ok asked identity h = absurd (omega (arith, h))
  with_purl-Stored i r (pos n) (some purl) w ok asked identity h = record {
    request_of = r;
    amount = n;
    purl = purl;
    parsed = ok;
    named = written-named i.id (codec.encode (copies n purl)) w h;
    decoded = refl;
    asked = asked;
    identity = identity;
    stored =
        written-ok _ _ w (write kv uuids (open_id db i.id) (codec.encode (copies n purl)) w)
          (write-Saved kv uuids (open_id db i.id) (codec.encode (copies n purl)) w) h;
  }

  start_by-Stored :
      (i : Identifier) (b : Bool) (body : Option StartRequest) (w : World kv)
      → i.parsed ≡ b
      → (start_by kv uuids db Purl from_string codec b i body w).0 ≡ 200
      → Stored i body (start_by kv uuids db Purl from_string codec b i body w).1.store
  start_by-Stored i false body w e h = absurd (omega (arith, h))
  start_by-Stored i true none w e h = absurd (omega (arith, h))
  start_by-Stored i true (some r) w e h =
      with_purl-Stored i r r.minimum_amount (from_string r.artifact_identity) w e refl refl h

  read_named-stored :
      (id : ℕ) (w : World kv) (o : Option Text)
      → id ≢ 0
      → first_answer w.answers ≡ applied
      → kv.get (at id) w.store ≡ o
      → read_named kv uuids db Purl from_string codec id (open_id db id) w
        ≡ value (bytes_of kv uuids db Purl from_string codec o)
  read_named-stored zero w o named answered stored = absurd (named refl)
  read_named-stored (suc n) w o named answered stored =
      ap (λ a. read_by kv uuids db Purl from_string codec a (open_id db (suc n)) w) answered
      ∙ ap (λ x. value (bytes_of kv uuids db Purl from_string codec x)) stored

  -- A status, where the value of the client is stored and the request is answered.
  status-stored :
      (i : Identifier) (w : World kv) (o : Option Text)
      → i.id ≢ 0
      → first_answer w.answers ≡ applied
      → kv.get (at i.id) w.store ≡ o
      → status kv uuids db Purl from_string codec i w
        ≡ decoded_status kv uuids db Purl from_string codec i.parsed
            (codec.decode (bytes_of kv uuids db Purl from_string codec o))
  unfolding status
  status-stored i w o named answered stored =
      ap (status_by kv uuids db Purl from_string codec i.parsed)
        (read_named-stored i.id w o named answered stored)

  -- A status that the database answers after a start that answered 200 has 200 too, and lists as many
  -- copies of the requested identity as the minimum amount, if nothing else was stored in between.
  pub status_of_start :
      (i : Identifier) (body : Option StartRequest) (w later : World kv)
      → (start kv uuids db Purl from_string codec i body w).0 ≡ 200
      → later.store ≡ (start kv uuids db Purl from_string codec i body w).1.store
      → first_answer later.answers ≡ applied
      → (r : StartRequest) × (n : ℕ) × (purl : Purl) × (body ≡ some r)
        × (r.minimum_amount ≡ pos n)
        × (from_string r.artifact_identity ≡ some purl)
        × (status kv uuids db Purl from_string codec i later ≡ (200, some (copies n purl)))
  unfolding start
  status_of_start i body w later h same answered =
      let s = start_by-Stored i i.parsed body w refl h in
      (
        s.request_of,
        s.amount,
        s.purl,
        s.decoded,
        s.asked,
        s.identity,
        status-stored i later _ s.named answered (ap (kv.get (at i.id)) same ∙ s.stored)
            ∙ ap (decoded_status kv uuids db Purl from_string codec i.parsed)
                (codec.decode_encode (copies s.amount s.purl))
            ∙ ap (λ b. (first_status b 200, some (copies s.amount s.purl))) s.parsed,
      )

  deleted-gone :
      (i : Identifier) (a : Answer) (w : World kv)
      → (deleted kv uuids db i.parsed (change_by kv a (kv.remove (at i.id)) w)).0 ≡ 204
      → kv.get
          (at i.id)
          (deleted kv uuids db i.parsed (change_by kv a (kv.remove (at i.id)) w)).1.store
        ≡ none
  deleted-gone i applied w h = kv.get_remove (at i.id) w.store
  deleted-gone i (lost t) w h = absurd (omega (arith, h))
  deleted-gone i (unheard t) w h = absurd (omega (arith, h))

  -- After a stop that answered 204 the IUTs are gone: a status that the database answers has 500 and
  -- no IUTs, if nothing was stored in between.
  pub status_of_stop :
      (i : Identifier) (w later : World kv)
      → i.id ≢ 0
      → (stop kv uuids db i w).0 ≡ 204
      → later.store ≡ (stop kv uuids db i w).1.store
      → first_answer later.answers ≡ applied
      → status kv uuids db Purl from_string codec i later ≡ (500, none)
  unfolding stop delete request
  status_of_stop i w later named h same answered =
      status-stored i later none named answered
        (ap (kv.get (at i.id)) same ∙ deleted-gone i (first_answer w.answers) (moved_on kv w) h)
      ∙ ap (decoded_status kv uuids db Purl from_string codec i.parsed) codec.decode_empty
