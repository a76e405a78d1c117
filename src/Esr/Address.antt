-- ===== src/Esr/Address.antt =====
-- The address that both protocols poll, from the pods that internal/kubernetes finds.
use etos_api.Prelude.{
  ℕ, ◌≤◌, true, ◌≡◌, ◌≢◌, refl, sym, ◌∙◌, some, List, [], ◌∷◌, ◌++◌, Text, codes,
}
use etos_api.Space.{Decoded, value, undecoded}
use etos_api.Kubernetes.{Job, Pod, Cache, log_listener_ip}
use etos_api.Kubernetes.Fresh.{Api, Reached}
use etos_api.Kubernetes.Found.{NowListens, log_listener_ip-Listens}
use etos_api.Esr.{url_at}

url_at-inv :
    (path : Text) (address : Decoded Text) {t : Text}
    → url_at path address ≡ some t
    → (ip : Text) × (address ≡ value ip)
      × (ip ≢ [])
      × (t ≡ codes "http://" ++ (ip ++ (codes ":8000" ++ path)))
url_at-inv path (undecoded e) h = absurd (cc (h))
url_at-inv path (value []) h = absurd (cc (h))
url_at-inv path (value (c ∷ ip)) h = (c ∷ ip, refl, cc, cc (h))

-- An address that is polled is that of the first pod of the first job, in answers of the last five
-- seconds, and it is not empty.
pub url_at-Listens :
    (path identifier : Text) (jobs_api : Api (List Job)) (pods_api : Api (List Pod)) (c : Cache)
    (before now : ℕ) (address : Decoded Text) {t : Text}
    → Reached jobs_api c.jobs before
    → Reached pods_api c.pods before
    → before ≤ now
    → address ≡ (log_listener_ip true identifier now (jobs_api now) (pods_api now) c).0
    → url_at path address ≡ some t
    → (ip : Text) × NowListens jobs_api pods_api now identifier ip
      × (ip ≢ [])
      × (t ≡ codes "http://" ++ (ip ++ (codes ":8000" ++ path)))
url_at-Listens path identifier jobs_api pods_api c before now address rj rp le at h =
    let (ip, e, given, shape) = url_at-inv path address h in
    (
      ip,
      log_listener_ip-Listens jobs_api pods_api true identifier ip c before now rj rp le
          (sym at ∙ e),
      given,
      shape,
    )
