-- ===== src/SearchProxy/Cooldown.antt =====
-- `_cooldowns`: until when a provider is left alone. Times are nanoseconds.
use home_server.Common.{
  ℕ, ◌+◌, ◌*◌, String, str_eq, leb, if◌then◌else◌, Bool, true, false, List, [], ◌∷◌, ok,
}
use home_server.SearchProxy.Exec.{World, Exec, pure, ◌>>=◌, ◌>>◌}

abbrev pub second : ℕ
second = 1_000_000_000

abbrev pub public_engine_cooldown_seconds : ℕ
public_engine_cooldown_seconds = 15 * 60

abbrev pub paid_provider_cooldown_seconds : ℕ
paid_provider_cooldown_seconds = 5 * 60

-- _cooldowns.get(provider, 0)
unfoldable pub deadline : String → List (String × ℕ) → ℕ
deadline p [] = 0
deadline p ((q, d) ∷ rest) = if str_eq q p then d else deadline p rest

-- _cooldowns.pop(provider, None)
unfoldable pub without : String → List (String × ℕ) → List (String × ℕ)
without p [] = []
without p ((q, d) ∷ rest) =
    let others = without p rest in if str_eq q p then others else (q, d) ∷ others

-- time.monotonic()
unfoldable pub monotonic : World → Exec ℕ
monotonic w s = (ok (w.clock s.readings), record s { readings = s.readings + 1 })

abbrev pop : String → Exec Unit
unfolding without
pop p s = (ok tt, record s { cooldowns = without p s.cooldowns })

abbrev deadline_of : String → Exec ℕ
unfolding deadline
deadline_of p s = (ok (deadline p s.cooldowns), s)

abbrev set_deadline : String → ℕ → Exec Unit
unfolding without
set_deadline p d s = (ok tt, record s { cooldowns = (p, d) ∷ without p s.cooldowns })

unfoldable pub is_available : World → String → Exec Bool
unfolding monotonic deadline without
is_available w provider = do
  now ← monotonic w
  until ← deadline_of provider
  if leb until now then (do pop provider; pure true) else pure false

unfoldable pub start_cooldown : World → String → ℕ → Exec Unit
unfolding monotonic without
start_cooldown w provider seconds = do
  now ← monotonic w
  set_deadline provider (now + seconds * second)
