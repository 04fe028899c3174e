-- ===== src/Kv.antt =====
-- internal/runtime/kv_memory.go: the key-value store in memory, whose entries can expire. A time and a
-- `ttl` are numbers, `ttl` one that is not negative; `now` is what the clock says. Each operation holds
-- the store's lock from its start to its end.
pub mod Expiry
pub mod Samples
use tailflow_agent.Prelude.{
  ℕ, ◌+◌, String, Bool, true, false, Option, none, some, if◌then◌else◌, ltb,
}
use tailflow_agent.Prelude.Dict.{Dict, lookup, insert, erase}
use tailflow_agent.Value.{Value}

pub record KvEntry : Type 0 where
  pub value : Value
  -- `none` is the zero time: no expiration
  pub expires_at : Option ℕ

-- `!e.expiresAt.IsZero() && now.After(e.expiresAt)`
abbrev pub expired : ℕ → KvEntry → Bool
expired now e = elim (e.expires_at) [ none ↦ false | some t ↦ ltb t now ]

-- What `Get` returns, and the store that it leaves: an expired entry is deleted.
unfoldable pub get : String → ℕ → Dict KvEntry → Option Value × Dict KvEntry
get key now m = elim (lookup key m) [
  | none ↦ (none, m)
  | some e ↦ if expired now e then (none, erase key m) else (some e.value, m)
]

abbrev pub entry : Value → ℕ → ℕ → KvEntry
entry value ttl now = record {
  value = value;
  expires_at = if ltb 0 ttl then some (now + ttl) else none;
}

-- `Set`
unfoldable pub put : String → Value → ℕ → ℕ → Dict KvEntry → Dict KvEntry
put key value ttl now m = insert key (entry value ttl now) m

-- Whether there was an entry that had not expired, and the store without it.
unfoldable pub delete : String → ℕ → Dict KvEntry → Bool × Dict KvEntry
delete key now m = elim (lookup key m) [
  | none ↦ (false, m)
  | some e ↦ if expired now e then (false, erase key m) else (true, erase key m)
]
