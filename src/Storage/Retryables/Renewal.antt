-- ===== src/Storage/Retryables/Renewal.antt =====
-- crates/arb-revm/src/storage/retryables.rs: reaping the first ticket of the timeout queue.
use native.Mathlib.Decide.{dec_le}
use arbitrum_revm.Prelude.{
  ℕ, ◌+◌, ◌-◌, ◌*◌, ◌^◌, ◌<◌, ◌≤◌, ◌≡◌, ◌≢◌, ap, refl, sym, subst, Bool, ◌∙◌, inl, inr, arith,
  Bool-cases, true, false, leb, ltb, ◌==◌,
}
use arbitrum_revm.Words.{u64_max, sat_add-eq, sat_mul-eq}
use arbitrum_revm.Exec.{Journal, Host, Result, ok}
use arbitrum_revm.Storage.{
  StorageSpace, IsApart, slot_for_hash, get, set, put, get_u64-eq, get-set_self, get-set_ne,
  balance-set,
}
use arbitrum_revm.Storage.Queue.Fifo.{
  IsValid, popped, pop-some, peek-some, popped-far, cursor-popped, balance-popped,
}
use arbitrum_revm.Storage.Retryables.{
  lifetime_seconds, timeout_queue, retryable, timeout_with_windows, exists_at, reap, reap_first,
  try_to_reap_one,
}

module _ ⦃h : Host⦄ (root : StorageSpace) (id : ℕ) where
  abbrev q : StorageSpace
  q = timeout_queue root

  abbrev r : StorageSpace
  r = retryable root id

  -- The queue and the ticket keep their slots apart.
  pub record IsSeparate : Type 0 where
    pub queue : IsApart q
    pub ticket : IsApart r
    pub far : (i k : ℕ) → i < 2 ^ 64 → k < 2 ^ 64 → slot_for_hash q i ≢ slot_for_hash r k

  -- The ticket stands first in the queue, past its timeout or not.
  pub record IsFirst (j : Journal) : Type 0 where
    pub valid : IsValid q j
    pub some_left : get q 1 j < get q 0 j
    pub head : get q (get q 1 j) j ≡ id
    pub timeout : get r 5 j < 2 ^ 64
    pub windows : get r 6 j < 2 ^ 64
    pub alive : 0 < get r 5 j
    pub fits : get r 5 j + get r 6 j * lifetime_seconds ≤ u64_max

  module _ (sep : IsSeparate) where
    abbrev left : Journal → Journal
    left j = popped q sep.queue j

    ticket-left : (k : ℕ) (j : Journal) → IsFirst j → k < 2 ^ 64 → get r k (left j) ≡ get r k j
    ticket-left k j first lt =
        popped-far q sep.queue r k j first.valid (λ i small. sep.far i k small lt)

    start : (now : ℕ) (j : Journal) → IsFirst j → try_to_reap_one root now j ≡ reap root now id j
    unfolding try_to_reap_one reap_first
    start now j first = rw (peek-some q sep.queue j first.valid first.some_left) (rw first.head)

    renewed : Journal → Journal
    renewed j = set r 6 (get r 6 j - 1) (set r 5 (get r 5 j + lifetime_seconds) (left j))

    above : (a b : ℕ) → a < b → (b == a) ≡ false
    above a b lt = ground arith

    earlier : (a b : ℕ) → a < b → leb b a ≡ false
    earlier a b lt = ground arith

    within : (a b : ℕ) → a ≤ b → leb a b ≡ true
    within a b le = ground arith

    reap_live :
        (now : ℕ) (j : Journal) → IsFirst j → now ≤ get r 5 j → reap root now id j ≡ (ok false, j)
    unfolding reap
    reap_live now j first le = rw (get_u64-eq r 5 j first.timeout) (
        rw (above 0 (get r 5 j) first.alive)
          (rw (get_u64-eq r 6 j first.windows) (rw (within now (get r 5 j) le))))

    one_window : (j : Journal) → IsFirst j → 0 < get r 6 j → get r 5 j + lifetime_seconds ≤ u64_max
    one_window j first more = omega (arith, first.fits, more)

    reap_renew :
        (now : ℕ) (j : Journal)
        → IsFirst j
        → get r 5 j < now
        → 0 < get r 6 j
        → reap root now id j ≡ (ok true, renewed j)
    unfolding reap renewed put
    reap_renew now j first lt more = rw (get_u64-eq r 5 j first.timeout) (
        rw (above 0 (get r 5 j) first.alive) (
          rw (get_u64-eq r 6 j first.windows) (
            rw (earlier (get r 5 j) now lt) (
              rw (pop-some q sep.queue j first.valid first.some_left) (
                rw (above 0 (get r 6 j) more) (
                  rw (
                    sat_add-eq u64_max (get r 5 j) lifetime_seconds (one_window j first more))))))))

    abbrev reaped : ℕ → Journal → Journal
    reaped now j = (try_to_reap_one root now j).1

    deadline :
        (j : Journal)
        → get r 5 j < 2 ^ 64
        → get r 6 j < 2 ^ 64
        → get r 5 j + get r 6 j * lifetime_seconds ≤ u64_max
        → (timeout_with_windows r j).0 ≡ ok (get r 5 j + get r 6 j * lifetime_seconds)
    unfolding timeout_with_windows
    deadline j timeout windows fits =
        rw (get_u64-eq r 5 j timeout, get_u64-eq r 6 j windows)
          (rw (sat_mul-eq u64_max (get r 6 j) lifetime_seconds (omega (arith, fits)))
            (rw (sat_add-eq u64_max (get r 5 j) (get r 6 j * lifetime_seconds) fits)))

    timeout-renewed : (j : Journal) → get r 5 (renewed j) ≡ get r 5 j + lifetime_seconds
    unfolding renewed
    timeout-renewed j =
        get-set_ne r r 6 5 (get r 6 j - 1) (set r 5 (get r 5 j + lifetime_seconds) (left j))
          (sep.ticket 6 5 (omega arith) (omega arith) (omega arith))
        ∙ get-set_self r 5 (get r 5 j + lifetime_seconds) (left j)

    windows-renewed : (j : Journal) → get r 6 (renewed j) ≡ get r 6 j - 1
    unfolding renewed
    windows-renewed j =
        get-set_self r 6 (get r 6 j - 1) (set r 5 (get r 5 j + lifetime_seconds) (left j))

    cursor-renewed : (j : Journal) → IsFirst j → get q 1 (renewed j) ≡ get q 1 j + 1
    unfolding renewed
    cursor-renewed j first =
        get-set_ne r q 6 1 (get r 6 j - 1) (set r 5 (get r 5 j + lifetime_seconds) (left j))
          (λ e. sep.far 1 6 (omega arith) (omega arith) (sym e))
        ∙ get-set_ne r q 5 1 (get r 5 j + lifetime_seconds) (left j)
            (λ e. sep.far 1 5 (omega arith) (omega arith) (sym e))
        ∙ cursor-popped q sep.queue j first.valid

    deadline-renewed :
        (j : Journal)
        → IsFirst j
        → 0 < get r 6 j
        → (timeout_with_windows r (renewed j)).0 ≡ (timeout_with_windows r j).0
    deadline-renewed j first more =
        let t = timeout-renewed j in
        let w = windows-renewed j in
        let fits = first.fits in
        deadline (renewed j) (omega (arith, t, fits, more)) (omega (arith, w, first.windows))
          (omega (arith, t, w, fits, more))
        ∙ ap ok (omega (arith, t, w, more))
        ∙ sym (deadline j first.timeout first.windows fits)

    -- Let the slots of the queue and of the ticket not collide, and the ticket stand first in a
    -- valid queue, exist, and have a deadline that fits a u64. Past its timeout, if it has a
    -- window left, it is taken off the queue's front, its timeout moves on by one lifetime, it has
    -- one window fewer, and its deadline, which counts the windows in, stays.
    pub try_to_reap_one-renew :
        (now : ℕ) (j : Journal)
        → IsFirst j
        → get r 5 j < now
        → 0 < get r 6 j
        → ((try_to_reap_one root now j).0 ≡ ok true)
          × (get q 1 (reaped now j) ≡ get q 1 j + 1)
          × (get r 5 (reaped now j) ≡ get r 5 j + lifetime_seconds)
          × (get r 6 (reaped now j) + 1 ≡ get r 6 j)
          × ((timeout_with_windows r (reaped now j)).0 ≡ (timeout_with_windows r j).0)
    try_to_reap_one-renew now j first lt more =
        let e = start now j first ∙ reap_renew now j first lt more in
        let k : reaped now j ≡ renewed j = ap (λ x. x.1) e in
        (
          ap (λ x. x.0) e,
          ap (get q 1) k ∙ cursor-renewed j first,
          ap (get r 5) k ∙ timeout-renewed j,
          omega (arith, ap (get r 6) k, windows-renewed j, more),
          ap (λ x. (timeout_with_windows r x).0) k ∙ deadline-renewed j first more,
        )

    exists-deadline :
        (now version : ℕ) (j : Journal)
        → 60 ≤ version
        → 0 < get r 5 j
        → get r 5 j < 2 ^ 64
        → get r 6 j < 2 ^ 64
        → get r 5 j + get r 6 j * lifetime_seconds ≤ u64_max
        → now ≤ get r 5 j + get r 6 j * lifetime_seconds
        → (exists_at r now version j).0 ≡ ok true
    unfolding exists_at
    exists-deadline now version j late alive timeout windows fits le =
        let end = get r 5 j + get r 6 j * lifetime_seconds in
        let extends : ltb version 60 ≡ false = ground (arith, late) in
        rw (get_u64-eq r 5 j timeout) (
          rw (above 0 (get r 5 j) alive) (elim (Bool-cases (leb now (get r 5 j))) [
            | inl before ↦ rw before refl
            | inr past ↦
                rw (past, extends)
                  (rw (deadline j timeout windows fits) (ap ok (within now end le)))
          ]))

    balance-renewed : (j : Journal) → (renewed j).balance ≡ j.balance
    unfolding renewed
    balance-renewed j =
        balance-set r 6 (get r 6 j - 1) (set r 5 (get r 5 j + lifetime_seconds) (left j))
        ∙ balance-set r 5 (get r 5 j + lifetime_seconds) (left j)
        ∙ balance-popped q sep.queue j

    abbrev Kept : ℕ → ℕ → Journal → Result Bool × Journal → Type 0
    Kept now version j out =
        (out.0 ≡ ok (ltb (get r 5 j) now))
        × (out.1.balance ≡ j.balance)
        × ((timeout_with_windows r out.1).0 ≡ (timeout_with_windows r j).0)
        × ((exists_at r now version out.1).0 ≡ ok true)

    -- Let the slots of the queue and of the ticket not collide, and the ticket stand first in a
    -- valid queue, exist, and have a deadline, its timeout and its windows, that fits a u64. At
    -- any time up to that deadline, and from ArbOS 60 on, a reaping returns, with whether the
    -- timeout is past, and changes no balance, so that the escrow is not paid out; the deadline
    -- stays, and the ticket still exists.
    pub try_to_reap_one-keeps :
        (now version : ℕ) (j : Journal)
        → IsFirst j
        → 60 ≤ version
        → now ≤ get r 5 j + get r 6 j * lifetime_seconds
        → ((try_to_reap_one root now j).0 ≡ ok (ltb (get r 5 j) now))
          × ((reaped now j).balance ≡ j.balance)
          × ((timeout_with_windows r (reaped now j)).0 ≡ (timeout_with_windows r j).0)
          × ((exists_at r now version (reaped now j)).0 ≡ ok true)
    try_to_reap_one-keeps now version j first late le = elim (dec_le now (get r 5 j)) [
      | yes before ↦
          let e = start now j first ∙ reap_live now j first before in
          let waits : ltb (get r 5 j) now ≡ false = ground (arith, before) in
          subst (Kept now version j) (sym e) (
            ap ok (sym waits),
            refl,
            refl,
            exists-deadline now version j late first.alive first.timeout first.windows first.fits
                le,
          )
      | no past ↦
          let lt : get r 5 j < now = omega (arith, past) in
          let more : 0 < get r 6 j = ground (arith, lt, le) in
          let e = start now j first ∙ reap_renew now j first lt more in
          let acts : ltb (get r 5 j) now ≡ true = ground (arith, lt) in
          let t = timeout-renewed j in
          let w = windows-renewed j in
          subst (Kept now version j) (sym e) (
            ap ok (sym acts),
            balance-renewed j,
            deadline-renewed j first more,
            exists-deadline now version (renewed j) late (omega (arith, t))
                (omega (arith, t, first.fits, more)) (omega (arith, w, first.windows))
                (omega (arith, t, w, first.fits, more)) (omega (arith, t, w, le, more)),
          )
    ]
