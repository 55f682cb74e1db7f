-- ===== src/Storage/Queue.antt =====
-- crates/arb-revm/src/storage/queue.rs: the queue of retryable timeouts.
-- The source's `get` and `put` are `pop` and `push` here.
pub mod Fifo
pub mod Refinement
pub mod Drain
use arbitrum_revm.Prelude.{
  ℕ, zero, suc, ◌+◌, ◌-◌, Bool, true, false, Option, none, some, ◌==◌, ◌&&◌, if◌then◌else◌,
}
use arbitrum_revm.Words.{add64}
use arbitrum_revm.Exec.{Host, Exec, pure, ◌>>=◌, ◌>>◌}
use arbitrum_revm.Storage.{StorageSpace}
use arbitrum_revm.Storage.{get_u64, get_u256, put}

abbrev pub next_put_offset : ℕ
next_put_offset = 0

abbrev pub next_get_offset : ℕ
next_get_offset = 1

abbrev pub initial_offset : ℕ
initial_offset = 2

module _ ⦃h : Host⦄ (s : StorageSpace) where
  unfoldable pub initialize : Exec (Unit {0})
  initialize = do put s next_put_offset initial_offset; put s next_get_offset initial_offset

  -- ensure_initialized
  pub ensure_initialized : Exec (Unit {0})
  ensure_initialized = do
    p ← get_u64 s next_put_offset
    g ← get_u64 s next_get_offset
    if p == 0 && g == 0 then initialize else pure tt

  pub is_empty : Exec Bool
  is_empty = do p ← get_u64 s next_put_offset; g ← get_u64 s next_get_offset; pure (p == g)

  pub size : Exec ℕ
  size = do p ← get_u64 s next_put_offset; g ← get_u64 s next_get_offset; pure (p - g)

  pub peek : Exec (Option ℕ)
  peek = do
    e ← is_empty
    if e
        then pure none
        else do next ← get_u64 s next_get_offset; entry ← get_u256 s next; pure (some entry)

  pub pop : Exec (Option ℕ)
  pop = do
    e ← is_empty
    if e then pure none else do
      current ← get_u64 s next_get_offset
      put s next_get_offset (add64 current 1)
      entry ← get_u256 s current
      put s current 0
      pure (some entry)

  pub push : ℕ → Exec (Unit {0})
  push value = do
    current ← get_u64 s next_put_offset
    put s next_put_offset (add64 current 1)
    put s current value

  pub shift : Exec Bool
  shift = do
    e ← is_empty
    if e
        then (do
          put s next_get_offset initial_offset
          put s next_put_offset initial_offset
          pure true)
        else pure false
