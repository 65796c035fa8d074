-- ===== src/Budget/Expiry.antt =====
-- internal/governance/budget: the expiry of a counter's key, by the clock of Redis.
use citywalk.Prelude.{ℕ, ◌+◌, ◌*◌, String, Bool, Option, none, some, ltb, str_eq, if◌then◌else◌}
use citywalk.Prelude.Int.{ℤ}
use citywalk.Budget.{Hash, Store, key, eval}

pub record Entry : Type 0 where
  pub hash : Hash
  pub expires : ℕ

abbrev pub Entries : Type 0
Entries = String → Option Entry

-- What a read finds at the time `clock`.
abbrev pub alive : ℕ → Option Entry → Option Hash
alive clock none = none
alive clock (some e) = if ltb clock e.expires then some e.hash else none

abbrev pub live : ℕ → Entries → Store
live clock redis k = alive clock (redis k)

abbrev pub with_expiry : Option Hash → ℕ → Option Entry
with_expiry none expires = none
with_expiry (some h) expires = some (record { hash = h; expires = expires })

-- `Counter.eval` at the time `clock` of Redis: `EXPIRE` arms the key that the script wrote for two windows.
unfoldable pub eval_at : ℕ → String → ℕ → ℕ → ℕ → ℤ → Entries → Entries × Bool
eval_at seconds identity now clock increment limit redis =
    let (store, answer) = eval seconds identity now increment limit (live clock redis) in
    (
      λ j.
          if str_eq j (key identity)
          then with_expiry (store (key identity)) (clock + 2 * seconds)
          else redis j,
      answer,
    )

-- `CheckAndIncrement`, whose `now` is the clock's.
unfoldable pub check_and_increment_at : ℕ → String → ℤ → ℕ → Entries → Entries × Bool
unfolding eval_at
check_and_increment_at seconds identity limit now redis =
    eval_at seconds identity now now 1 limit redis
