-- ===== src/Auth/Scopes.antt =====
-- internal/authorization/scope/types.go: a scope is read back from its text.
use etos_api.Prelude.{◌≡◌, ◌≢◌, refl, [], ◌∷◌, Text, All, Lacks}
use etos_api.Prelude.Split.{split-join, join-split}
use etos_api.Auth.{Scope, format, parse}

-- A scope of at least one entry whose entries have no space is read back from its text.
pub parse-format : (s : Scope) → s ≢ [] → All (Lacks b' ') s → parse (format s) ≡ s
unfolding parse format
parse-format [] some_entry plain = absurd (some_entry refl)
parse-format (s ∷ ss) some_entry (p, plain) = split-join b' ' s ss p plain

pub format-parse : (t : Text) → format (parse t) ≡ t
unfolding parse format
format-parse t = join-split b' ' t
