-- ===== src/Space/Serial.antt =====
-- A codec without loss for the records of pkg/executionspace/executionspace, on which the tests run:
-- numbers as they are, lists behind their length.
use etos_api.Prelude.{
  ℕ, zero, suc, ◌≡◌, refl, sym, ap, ◌∙◌, Option, none, some, List, [], ◌∷◌, ◌++◌, append_assoc,
  append-nil, Text, length, codes,
}
use etos_api.Database.{message, eof}
use etos_api.Space.{
  Map, Request, Instructions, ExecutorSpec, CheckoutStatus, pending, failed, done, ExecutionSpace,
  Decoded, value, undecoded, Codec,
}

pub record Serial {ℓ} (A : Type ℓ) : Type ℓ where
  pub write : A → List ℕ
  pub read : List ℕ → Option (A × List ℕ)
  pub read_write : (a : A) (rest : List ℕ) → read (write a ++ rest) ≡ some (a, rest)

abbrev read_number : List ℕ → Option (ℕ × List ℕ)
read_number [] = none
read_number (n ∷ rest) = some (n, rest)

abbrev pub number : Serial ℕ
number = record { write = λ n. n ∷ []; read = read_number; read_write = λ n rest. refl }

module _ {ℓ κ} {A : Type ℓ} {B : Type κ} where
  abbrev pair_with : A → Option (B × List ℕ) → Option ((A × B) × List ℕ)
  pair_with a none = none
  pair_with a (some (b, rest)) = some ((a, b), rest)

  abbrev read_second : Serial B → Option (A × List ℕ) → Option ((A × B) × List ℕ)
  read_second t none = none
  read_second t (some (a, rest)) = pair_with a (t.read rest)

  abbrev pub both : Serial A → Serial B → Serial (A × B)
  both s t = record {
    write = λ p. s.write p.0 ++ t.write p.1;
    read = λ bytes. read_second t (s.read bytes);
    read_write = λ p rest.
        ap (λ x. read_second t (s.read x)) (append_assoc (s.write p.0) (t.write p.1) rest)
        ∙ ap (read_second t) (s.read_write p.0 (t.write p.1 ++ rest))
        ∙ ap (pair_with p.0) (t.read_write p.1 rest);
  }

  -- A type that is as another.
  abbrev mapped : (A → B) → Option (A × List ℕ) → Option (B × List ℕ)
  mapped f none = none
  mapped f (some (a, rest)) = some (f a, rest)

  abbrev pub via : (f : A → B) (g : B → A) → ((b : B) → f (g b) ≡ b) → Serial A → Serial B
  via f g inverse s = record {
    write = λ b. s.write (g b);
    read = λ bytes. mapped f (s.read bytes);
    read_write =
        λ b rest. ap (mapped f) (s.read_write (g b) rest) ∙ ap (λ x. some (x, rest)) (inverse b);
  }

module _ {ℓ} {A : Type ℓ} where
  abbrev write_all : Serial A → List A → List ℕ
  write_all s [] = []
  write_all s (x ∷ xs) = s.write x ++ write_all s xs

  abbrev onto_list : A → Option (List A × List ℕ) → Option (List A × List ℕ)
  onto_list x none = none
  onto_list x (some (xs, rest)) = some (x ∷ xs, rest)

  abbrev read_more :
      (List ℕ → Option (List A × List ℕ)) → Option (A × List ℕ) → Option (List A × List ℕ)
  read_more next none = none
  read_more next (some (x, rest)) = onto_list x (next rest)

  abbrev read_times : Serial A → ℕ → List ℕ → Option (List A × List ℕ)
  read_times s zero bytes = some ([], bytes)
  read_times s (suc n) bytes = read_more (read_times s n) (s.read bytes)

  abbrev read_list : Serial A → List ℕ → Option (List A × List ℕ)
  read_list s [] = none
  read_list s (n ∷ bytes) = read_times s n bytes

  pub read_times-write_all :
      (s : Serial A) (xs : List A) (rest : List ℕ)
      → read_times s (length xs) (write_all s xs ++ rest) ≡ some (xs, rest)
  read_times-write_all s [] rest = refl
  read_times-write_all s (x ∷ xs) rest =
      ap (λ b. read_more (read_times s (length xs)) (s.read b))
        (append_assoc (s.write x) (write_all s xs) rest)
      ∙ ap (read_more (read_times s (length xs))) (s.read_write x (write_all s xs ++ rest))
      ∙ ap (onto_list x) (read_times-write_all s xs rest)

  abbrev pub list_of : Serial A → Serial (List A)
  list_of s = record {
    write = λ xs. length xs ∷ write_all s xs;
    read = read_list s;
    read_write = λ xs rest. read_times-write_all s xs rest;
  }

  abbrev decoded : Option (A × List ℕ) → Decoded A
  decoded none = undecoded (message (codes "invalid"))
  decoded (some (a, rest)) = value a

  abbrev decode : Serial A → List ℕ → Decoded A
  decode s [] = undecoded eof
  decode s (n ∷ bytes) = decoded (s.read bytes)

  abbrev pub codec : Serial A → Codec A
  codec s = record {
    encode = λ a. b'{' ∷ s.write a;
    decode = decode s;
    decode_encode = λ a.
        ap (λ b. decoded (s.read b)) (sym (append-nil (s.write a)))
        ∙ ap decoded (s.read_write a []);
    decode_empty = refl;
  }

abbrev text : Serial Text
text = list_of number

abbrev map : Serial Map
map = list_of (both text text)

abbrev request_of : Text × (Text × (ℕ × (Map × ℕ))) → Request
request_of (x0, (x1, (x2, (x3, x4)))) = record {
  url = x0;
  method = x1;
  data_id = x2;
  headers = x3;
  timeout = x4;
}

abbrev request : Serial Request
request =
    via request_of (λ r. (r.url, (r.method, (r.data_id, (r.headers, r.timeout))))) (λ r. refl)
      (both text (both text (both number (both map number))))

abbrev instructions_of : Text × (Map × (Map × ℕ)) → Instructions
instructions_of (x0, (x1, (x2, x3))) = record {
  image = x0;
  environment = x1;
  parameters = x2;
  identifier = x3;
}

abbrev instructions : Serial Instructions
instructions =
    via instructions_of (λ r. (r.image, (r.environment, (r.parameters, r.identifier)))) (λ r. refl)
      (both text (both map (both map number)))

abbrev spec_of : Request × (Instructions × (ℕ × Text)) → ExecutorSpec
spec_of (x0, (x1, (x2, x3))) = record { request = x0; instructions = x1; id = x2; build_id = x3 }

abbrev spec : Serial ExecutorSpec
spec =
    via spec_of (λ r. (r.request, (r.instructions, (r.id, r.build_id)))) (λ r. refl)
      (both request (both instructions (both number text)))

abbrev status_of_number : ℕ → CheckoutStatus
status_of_number zero = pending
status_of_number (suc zero) = failed
status_of_number (suc (suc n)) = done

abbrev number_of_status : CheckoutStatus → ℕ
number_of_status pending = 0
number_of_status failed = 1
number_of_status done = 2

pub status_inverse : (s : CheckoutStatus) → status_of_number (number_of_status s) ≡ s
status_inverse pending = refl
status_inverse failed = refl
status_inverse done = refl

abbrev space_of : ℕ × (List ExecutorSpec × (List Text × (CheckoutStatus × Text))) → ExecutionSpace
space_of (x0, (x1, (x2, (x3, x4)))) = record {
  id = x0;
  executors = x1;
  references = x2;
  status = x3;
  description = x4;
}

abbrev space : Serial ExecutionSpace
space =
    via space_of (λ r. (r.id, (r.executors, (r.references, (r.status, r.description))))) (λ r. refl)
      (both number (
        both (list_of spec) (
          both (list_of text)
            (both (via status_of_number number_of_status status_inverse number) text))))

abbrev pub specs : Codec ExecutorSpec
specs = codec spec

abbrev pub spaces : Codec ExecutionSpace
spaces = codec space
