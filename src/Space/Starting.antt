-- ===== src/Space/Starting.antt =====
-- `Start` of pkg/executionspace/v1alpha/provider.go, with the check of its input, `sendError` and
-- `panicRecovery`. The decoding of the body and `packageurl.FromString` are parameters.
pub mod Launch
use etos_api.Prelude.{
  ℕ, ◌≡◌, ◌≢◌, ◌⊎◌, inl, inr, refl, Bool, true, false, Option, none, some, Text, codes, is_empty, ℤ,
  pos, negsuc, ◌==◌, ◌++◌, arith, if◌then◌else◌,
}
use etos_api.Database.{Error, error_text}
use etos_api.Space.{Map, set, Environ, Common, Decoded, value, undecoded}
use etos_api.Space.Provider.{ExecutorConfig}

pub record Dataset : Type 0 where
  pub etr_branch : Text
  pub etr_repo : Text
  pub dev : Bool

-- The fields of `StartRequest` that the handler reads.
pub record StartRequest : Type 0 where
  pub minimum_amount : ℤ
  pub maximum_amount : ℤ
  pub test_runner : Text
  -- `none` is the nil map of a body without it
  pub environment : Option Map
  pub artifact_identity : Text
  pub dataset : Dataset

-- An error: an `HTTPError` with its code, or another.
pub data ServiceError : Type 0 where
  http_error : ℕ → Text → ServiceError
  plain : Text → ServiceError

-- `Error()`; the text of the status is left out.
abbrev pub service_text : ServiceError → Text
service_text (http_error code t) = t
service_text (plain t) = t

-- The status of `sendError`.
unfoldable pub send_error : ServiceError → ℕ
send_error (http_error code t) = code
send_error (plain t) = 500

-- `verifyStartInput`, for the decoded body and the error of `packageurl.FromString`.
pub data Verified : Type 0 where
  valid : StartRequest → Verified
  invalid : ServiceError → Verified

abbrev pub with_purl : StartRequest → Option Text → Verified
with_purl r none = valid r
with_purl r (some t) = invalid (http_error 400 t)

unfoldable pub verify_start_input : Decoded StartRequest → (Text → Option Text) → Verified
verify_start_input (undecoded e) purl =
    invalid (http_error 400 (codes "unable to decode post body - Reason: " ++ error_text e))
verify_start_input (value r) purl = with_purl r (purl r.artifact_identity)

abbrev zero_int : ℤ → Bool
zero_int (pos n) = n == 0
zero_int (negsuc n) = false

-- The number of rounds of `for i := 0; i < amount; i++`.
abbrev pub rounds_of : ℤ → ℕ
rounds_of (pos n) = n
rounds_of (negsuc n) = 0

unfoldable pub maximum_of : StartRequest → ℤ
maximum_of r = if zero_int r.maximum_amount then r.minimum_amount else r.maximum_amount

-- An assignment to the map `environment`: `panicked` for a nil map.
pub data Assigned : Type 0 where
  assigned : Option Map → Assigned
  panicked : Assigned

abbrev pub assign : Text → Text → Option Map → Assigned
assign key v none = panicked
assign key v (some m) = assigned (some (set key v m))

abbrev pub and_then : Assigned → (Option Map → Assigned) → Assigned
and_then panicked next = panicked
and_then (assigned m) next = next m

abbrev pub assign_if : Bool → Text → Text → Option Map → Assigned
assign_if false key v m = assigned m
assign_if true key v m = assign key v m

abbrev pub not_empty : Text → Bool
not_empty t = if is_empty t then false else true

unfoldable pub with_dataset : Dataset → Option Map → Assigned
with_dataset d m =
    and_then (assign_if (not_empty d.etr_branch) (codes "ETR_BRANCH") d.etr_branch m) (λ m2.
      and_then (assign_if (not_empty d.etr_repo) (codes "ETR_REPOSITORY") d.etr_repo m2)
        (λ m3. assign_if d.dev (codes "DEV") (codes "true") m3))

-- The status of the response and the checkout that is started, if one is. `checkout_id` is the new
-- UUID, and `identifier` the X-Etos-Id header.
pub record Started : Type 0 where
  pub status : ℕ
  pub checkout : Option ExecutorConfig

-- What `providerCore` has besides: its URL, the environment of the process and the headers that are
-- propagated.
pub record Provider : Type 0 where
  pub url : Text
  pub environ : Environ
  pub carrier : Map

-- `Name` of the executor.
unfoldable pub name : Text
name = codes "kubernetes"

-- `New` of the Kubernetes provider, for the host name of the configuration.
unfoldable pub new_provider : Text → Environ → Map → Provider
new_provider hostname environ carrier = record {
  url = hostname ++ codes "/executionspace/v1alpha/executor/kubernetes";
  environ = environ;
  carrier = carrier;
}

abbrev pub launched : Provider → Text → ℕ → StartRequest → Assigned → Started
launched p identifier checkout_id r panicked = record { status = 500; checkout = none }
launched p identifier checkout_id r (assigned environment) = record {
  status = 200;
  checkout = some (record {
    amount = rounds_of (maximum_of r);
    checkout_id = checkout_id;
    environment = environment;
    common = record {
      url = p.url;
      environ = p.environ;
      carrier = p.carrier;
      etos_identifier = identifier;
      test_runner = r.test_runner;
    };
  });
}

-- The error is wrapped in a new one, which is no `HTTPError`.
abbrev pub started_by : Provider → Text → ℕ → Verified → Started
started_by p identifier checkout_id (invalid e) = record {
  status = send_error (plain (codes "start input could not be verified: " ++ service_text e));
  checkout = none;
}
started_by p identifier checkout_id (valid r) =
    launched p identifier checkout_id r (with_dataset r.dataset r.environment)

unfoldable pub start : Provider → Text → ℕ → (Text → Option Text) → Decoded StartRequest → Started
start p identifier checkout_id purl body =
    started_by p identifier checkout_id (verify_start_input body purl)
