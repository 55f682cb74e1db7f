-- ===== src/Storage/Queue/Fifo.antt =====
-- crates/arb-revm/src/storage/queue.rs: the entries of a queue and their order.
use arbitrum_revm.Prelude.{
  ℕ, zero, suc, ◌+◌, ◌-◌, ◌≤◌, ◌<◌, ◌≡◌, refl, ◌∙◌, ◌≢◌, ◌⊎◌, inl, inr, ◌^◌, false, none, some,
  List, [], ◌∷◌, ◌++◌, ◌==◌, arith, length,
}
use native.Mathlib.Decide.{dec_lt}
use arbitrum_revm.Words.{u64_max, sat_add}
use arbitrum_revm.Exec.{Journal, Host, ok}
use arbitrum_revm.Storage.{
  StorageSpace, IsApart, slot_for_hash, get, set, get_u256, put, get-set_self, get-set_ne,
  balance-set, get_u64-eq,
}
use arbitrum_revm.Storage.Queue.{peek, is_empty, size, push, pop}

module _ ⦃h : Host⦄ (s : StorageSpace) where
  -- The values of `n` slots from `i` on.
  unfoldable pub entries : ℕ → ℕ → Journal → List ℕ
  entries zero i j = []
  entries (suc n) i j = get s i j ∷ entries n (i + 1) j

  -- Lists of slots agree where the slots do.
  entries-congr :
      (n i : ℕ) (j k : Journal)
      → ((m : ℕ) → i ≤ m → m < i + n → get s m j ≡ get s m k)
      → entries n i j ≡ entries n i k
  unfolding entries
  entries-congr zero i j k same = refl
  entries-congr (suc n) i j k same =
      ground
        (arith, same i, entries-congr n (i + 1) j k (λ m lo hi. same m (omega arith) (omega arith)))

  entries-snoc :
      (n i : ℕ) (j : Journal) → entries (suc n) i j ≡ entries n i j ++ get s (i + n) j ∷ []
  unfolding entries
  entries-snoc zero i j = ground arith
  entries-snoc (suc n) i j = ground (arith, entries-snoc n (i + 1) j)

  pub length-entries : (n i : ℕ) (j : Journal) → length (entries n i j) ≡ n
  unfolding entries
  length-entries zero i j = refl
  length-entries (suc n) i j = omega (arith, length-entries n (i + 1) j)

  abbrev pub contents : Journal → List ℕ
  contents j = entries (get s 0 j - get s 1 j) (get s 1 j) j

  -- The cursors are in order, above their own slots, and do not saturate.
  pub record IsValid (j : Journal) : Type 0 where
    pub above : 2 ≤ get s 1 j
    pub ordered : get s 1 j ≤ get s 0 j
    pub bounded : get s 0 j < u64_max

  entries-grow :
      (p g v : ℕ) (j k : Journal)
      → g ≤ p
      → get s p k ≡ v
      → ((m : ℕ) → g ≤ m → m < p → get s m k ≡ get s m j)
      → entries (p + 1 - g) g k ≡ entries (p - g) g j ++ v ∷ []
  entries-grow p g v j k le last same =
      let e : p + 1 - g ≡ suc (p - g) = omega arith in
      let e' : g + (p - g) ≡ p = omega arith in
      rw (
        e,
        entries-snoc (p - g) g k,
        e',
        last,
        entries-congr (p - g) g k j (λ m lo hi. same m lo (omega arith)),
      )

  entries-shrink :
      (p g : ℕ) (j k : Journal)
      → g < p
      → ((m : ℕ) → g < m → m < p → get s m k ≡ get s m j)
      → entries (p - g) g j ≡ get s g j ∷ entries (p - (g + 1)) (g + 1) k
  unfolding entries
  entries-shrink p g j k lt same =
      let e : p - g ≡ suc (p - (g + 1)) = omega arith in
      rw
        (e, entries-congr (p - (g + 1)) (g + 1) k j (λ m lo hi. same m (omega arith) (omega arith)))

  module _ (apart : IsApart s) where
    ne :
        (i k v : ℕ) (j : Journal)
        → i < 2 ^ 64
        → k < 2 ^ 64
        → i ≢ k
        → get s k (set s i v j) ≡ get s k j
    ne i k v j a b d = get-set_ne s s i k v j (apart i k a b d)

    pushed : ℕ → Journal → Journal
    pushed v j = set s (get s 0 j) v (set s 0 (get s 0 j + 1) j)

    push-eq : (v : ℕ) (j : Journal) → IsValid j → push s v j ≡ (ok tt, pushed v j)
    unfolding push put sat_add pushed
    push-eq v j valid = rw (get_u64-eq s 0 j (omega arith)) (ground arith)

    get-pushed :
        (v : ℕ) (j : Journal)
        → IsValid j
        → (m : ℕ) → 1 ≤ m
        → m < get s 0 j
        → get s m (pushed v j) ≡ get s m j
    unfolding pushed
    get-pushed v j valid m lo hi =
        ne (get s 0 j) m v (set s 0 (get s 0 j + 1) j) (omega arith) (omega arith) (omega arith)
        ∙ ne 0 m (get s 0 j + 1) j (omega arith) (omega arith) (omega arith)

    put-pushed : (v : ℕ) (j : Journal) → IsValid j → get s 0 (pushed v j) ≡ get s 0 j + 1
    unfolding pushed
    put-pushed v j valid =
        ne (get s 0 j) 0 v (set s 0 (get s 0 j + 1) j) (omega arith) (omega arith) (omega arith)
        ∙ get-set_self s 0 (get s 0 j + 1) j

    contents-pushed :
        (v : ℕ) (j : Journal) → IsValid j → contents (pushed v j) ≡ contents j ++ v ∷ []
    contents-pushed v j valid =
        rw (put-pushed v j valid, get-pushed v j valid 1 (omega arith) (omega arith))
          (entries-grow (get s 0 j) (get s 1 j) v j (pushed v j) (omega arith)
            (unfold pushed in get-set_self s (get s 0 j) v (set s 0 (get s 0 j + 1) j))
            (λ m lo hi. get-pushed v j valid m (omega arith) (omega arith)))

    -- Where the slots of the queue's keys do not collide, and on a valid queue whose put cursor
    -- has room below the greatest u64, `push` returns, its value comes last, and the queue is
    -- valid again.
    pub contents-push :
        (v : ℕ) (j : Journal)
        → IsValid j
        → get s 0 j + 1 < u64_max
        → ((push s v j).0 ≡ ok tt)
          × (contents (push s v j).1 ≡ contents j ++ v ∷ [])
          × IsValid (push s v j).1
    contents-push v j valid room = rw (push-eq v j valid) (
      refl,
      contents-pushed v j valid,
      record {
        above = rw (get-pushed v j valid 1 (omega arith) (omega arith)) valid.above;
        ordered =
            rw (put-pushed v j valid, get-pushed v j valid 1 (omega arith) (omega arith))
              (omega arith);
        bounded = rw (put-pushed v j valid) room;
      },
    )

    pub put-push : (v : ℕ) (j : Journal) → IsValid j → get s 0 (push s v j).1 ≡ get s 0 j + 1
    put-push v j valid = rw (push-eq v j valid) (put-pushed v j valid)

    is_empty-eq : (j : Journal) → IsValid j → is_empty s j ≡ (ok (get s 0 j == get s 1 j), j)
    unfolding is_empty
    is_empty-eq j valid = rw (get_u64-eq s 0 j (omega arith), get_u64-eq s 1 j (omega arith))

    -- Where the slots of the queue's keys do not collide, `size` on a valid queue returns the
    -- number of its entries and writes nothing.
    pub size-length : (j : Journal) → IsValid j → size s j ≡ (ok (length (contents j)), j)
    unfolding size
    size-length j valid = rw (
      get_u64-eq s 0 j (omega arith),
      get_u64-eq s 1 j (omega arith),
      length-entries (get s 0 j - get s 1 j) (get s 1 j) j,
    )

    pub popped : Journal → Journal
    popped j = set s (get s 1 j) 0 (set s 1 (get s 1 j + 1) j)

    pop-none : (j : Journal) → IsValid j → get s 0 j ≡ get s 1 j → pop s j ≡ (ok none, j)
    unfolding pop
    pop-none j valid e = rw (is_empty-eq j valid) (ground arith)

    get-popped :
        (j : Journal)
        → IsValid j
        → (m : ℕ) → m ≢ 1
        → m ≢ get s 1 j
        → m < 2 ^ 64
        → get s m (popped j) ≡ get s m j
    unfolding popped
    get-popped j valid m a b c =
        ne (get s 1 j) m 0 (set s 1 (get s 1 j + 1) j) (omega arith) (omega arith) (omega arith)
        ∙ ne 1 m (get s 1 j + 1) j (omega arith) (omega arith) (omega arith)

    pub cursor-popped : (j : Journal) → IsValid j → get s 1 (popped j) ≡ get s 1 j + 1
    unfolding popped
    cursor-popped j valid =
        ne (get s 1 j) 1 0 (set s 1 (get s 1 j + 1) j) (omega arith) (omega arith) (omega arith)
        ∙ get-set_self s 1 (get s 1 j + 1) j

    pub balance-popped : (j : Journal) → (popped j).balance ≡ j.balance
    unfolding popped
    balance-popped j =
        balance-set s (get s 1 j) 0 (set s 1 (get s 1 j + 1) j) ∙ balance-set s 1 (get s 1 j + 1) j

    pub pop-some :
        (j : Journal)
        → IsValid j
        → get s 1 j < get s 0 j
        → pop s j ≡ (ok (some (get s (get s 1 j) j)), popped j)
    unfolding pop popped put get_u256 sat_add
    pop-some j valid lt =
        let open_lem : (get s 0 j == get s 1 j) ≡ false = ground arith in
        rw (is_empty-eq j valid) (
          rw open_lem (
            rw (get_u64-eq s 1 j (omega arith))
              (ground (arith, ne 1 (get s 1 j) (get s 1 j + 1) j))))

    pub peek-some :
        (j : Journal)
        → IsValid j
        → get s 1 j < get s 0 j
        → peek s j ≡ (ok (some (get s (get s 1 j) j)), j)
    unfolding peek get_u256
    peek-some j valid lt =
        let open_lem : (get s 0 j == get s 1 j) ≡ false = ground arith in
        rw (is_empty-eq j valid) (rw open_lem (rw (get_u64-eq s 1 j (omega arith))))

    -- A slot of another space is not touched.
    pub popped-far :
        (t : StorageSpace) (k : ℕ) (j : Journal)
        → IsValid j
        → ((i : ℕ) → i < 2 ^ 64 → slot_for_hash s i ≢ slot_for_hash t k)
        → get t k (popped j) ≡ get t k j
    unfolding popped
    popped-far t k j valid far =
        get-set_ne s t (get s 1 j) k 0 (set s 1 (get s 1 j + 1) j) (far (get s 1 j) (omega arith))
        ∙ get-set_ne s t 1 k (get s 1 j + 1) j (far 1 (omega arith))

    put-popped : (j : Journal) → IsValid j → get s 0 (popped j) ≡ get s 0 j
    put-popped j valid = get-popped j valid 0 (omega arith) (omega arith) (omega arith)

    popped-IsValid : (j : Journal) → IsValid j → get s 1 j < get s 0 j → IsValid (popped j)
    popped-IsValid j valid lt = record {
      above = rw (cursor-popped j valid) (omega arith);
      ordered = rw (cursor-popped j valid, put-popped j valid) (omega arith);
      bounded = rw (put-popped j valid) valid.bounded;
    }

    -- Where the slots of the queue's keys do not collide, `pop` takes the first entry off a valid
    -- queue and clears its slot: an empty queue gives none and is left as it was; otherwise the
    -- result is the head of the contents, the tail is what is left, the put cursor stays, and the
    -- queue is valid again.
    pub contents-pop :
        (j : Journal)
        → IsValid j
        → ((contents j ≡ []) × (pop s j ≡ (ok none, j)))
          ⊎ ((x : ℕ) × (get s 0 (pop s j).1 ≡ get s 0 j)
              × (contents j ≡ x ∷ contents (pop s j).1)
              × ((pop s j).0 ≡ ok (some x))
              × IsValid (pop s j).1
              × (get s (get s 1 j) (pop s j).1 ≡ 0))
    unfolding entries
    contents-pop j valid = elim (dec_lt (get s 1 j) (get s 0 j)) [
      | no done ↦
          let e : get s 0 j ≡ get s 1 j = omega arith in
          inl
            (rw (← e) (let z : get s 0 j - get s 0 j ≡ 0 = omega arith in rw z), pop-none j valid e)
      | yes lt ↦ inr (
        get s (get s 1 j) j,
        rw (pop-some j valid lt) (put-popped j valid),
        rw
            (
              pop-some j valid lt,
              cursor-popped j valid,
              get-popped j valid 0 (omega arith) (omega arith) (omega arith),
            )
            (entries-shrink (get s 0 j) (get s 1 j) j (popped j) lt
              (λ m lo hi. get-popped j valid m (omega arith) (omega arith) (omega arith))),
        rw (pop-some j valid lt),
        rw (pop-some j valid lt) (popped-IsValid j valid lt),
        rw (pop-some j valid lt)
            (unfold popped in get-set_self s (get s 1 j) 0 (set s 1 (get s 1 j + 1) j)),
      )
    ]
