-- ===== src/Examples/Tickets.antt =====
-- A ticket with one window left, first in the queue of the demo host.
use arbitrum_revm.Prelude.{◌+◌, ◌^◌, ◌≡◌, ◌≢◌, refl, [], arith, true, false, ltb}
use arbitrum_revm.Exec.{Journal, ok}
use arbitrum_revm.Storage.{StorageSpace, from_be_bytes, get, set, open_subspace_with_key, transfer}
use arbitrum_revm.Storage.Retryables.{
  timeout_queue, retryable, timeout_with_windows, try_to_reap_one, lifetime_seconds,
  delete_retryable, exists_at,
}
use arbitrum_revm.Storage.Retryables.Deletion
use arbitrum_revm.Storage.Retryables.Renewal.{
  IsSeparate, IsFirst, try_to_reap_one-keeps, try_to_reap_one-renew,
}
use arbitrum_revm.Demo.{demo, demo-IsApart, slot_for_hash-demo, blank, look, move}

abbrev root : StorageSpace
root = record { key = []; account = 1 }

abbrev queue : StorageSpace
queue = timeout_queue root

abbrev ticket : StorageSpace
ticket = retryable root 5

-- The ticket times out at 1,000 and has one window left.
abbrev stored : Journal
stored = set queue 2 5 (set queue 0 3 (set queue 1 2 (set ticket 5 1_000 (set ticket 6 1 blank))))

queue_key : from_be_bytes 1 queue.key ≡ 2 ^ 256 + 65_536
unfolding look
queue_key = refl

ticket_key : from_be_bytes 1 ticket.key ≡ 2 ^ 256 + 1_280
unfolding look retryable
ticket_key = refl

separate : IsSeparate root 5
separate = record {
  queue = demo-IsApart queue;
  ticket = demo-IsApart ticket;
  far = λ i k a b e. absurd (
      omega
        (arith, e, slot_for_hash-demo queue i, slot_for_hash-demo ticket k, queue_key, ticket_key));
}

stored_slots :
    (get queue 0 stored ≡ 3)
    × (get queue 1 stored ≡ 2)
    × (get queue 2 stored ≡ 5)
    × (get ticket 5 stored ≡ 1_000)
    × (get ticket 6 stored ≡ 1)
unfolding look retryable
stored_slots = (refl, refl, refl, refl, refl)

stored-IsFirst : IsFirst root 5 stored
stored-IsFirst = record {
  valid = record {
    above = omega (arith, stored_slots);
    ordered = omega (arith, stored_slots);
    bounded = omega (arith, stored_slots);
  };
  some_left = omega (arith, stored_slots);
  head = rw (stored_slots.1) stored_slots.2;
  timeout = omega (arith, stored_slots);
  windows = omega (arith, stored_slots);
  alive = omega (arith, stored_slots);
  fits = omega (arith, stored_slots);
}

abbrev after : Journal
after = (try_to_reap_one root 2_000 stored).1

-- At 1,500 the ticket is past its timeout and before its deadline.
abbrev middle : Journal
middle = (try_to_reap_one root 1_500 stored).1

try_to_reap_one-keeps_example :
    ((try_to_reap_one root 1_500 stored).0 ≡ ok (ltb (get ticket 5 stored) 1_500))
    × (middle.balance ≡ stored.balance)
    × ((timeout_with_windows ticket middle).0 ≡ (timeout_with_windows ticket stored).0)
    × ((exists_at ticket 1_500 60 middle).0 ≡ ok true)
try_to_reap_one-keeps_example =
    try_to_reap_one-keeps root 5 separate 1_500 60 stored stored-IsFirst (omega arith)
      (omega (arith, stored_slots))

try_to_reap_one-renew_example :
    ((try_to_reap_one root 2_000 stored).0 ≡ ok true)
    × (get queue 1 after ≡ get queue 1 stored + 1)
    × (get ticket 5 after ≡ get ticket 5 stored + lifetime_seconds)
    × (get ticket 6 after + 1 ≡ get ticket 6 stored)
    × ((timeout_with_windows ticket after).0 ≡ (timeout_with_windows ticket stored).0)
try_to_reap_one-renew_example =
    try_to_reap_one-renew root 5 separate 2_000 stored stored-IsFirst (omega (arith, stored_slots))
      (omega (arith, stored_slots))

abbrev ticket_data : StorageSpace
ticket_data = open_subspace_with_key ticket 1

data_key : from_be_bytes 1 ticket_data.key ≢ from_be_bytes 1 ticket.key
unfolding look retryable
data_key e = absurd (omega (arith, e))

data_separate : Deletion.IsSeparate root 5
data_separate = record {
  ticket = demo-IsApart ticket;
  bytes = demo-IsApart ticket_data;
  far = λ i k a b e.
      data_key (omega (arith, e, slot_for_hash-demo ticket_data i, slot_for_hash-demo ticket k));
}

-- The escrow holds 7.
abbrev funded : Journal
funded = record stored { balance = λ a. 7 }

funded_slots : (get ticket 5 funded ≡ 1_000) × (get ticket_data 0 funded ≡ 0)
unfolding look retryable
funded_slots = (refl, refl)

paid_out : (Deletion.pays root 5 funded).0 ≡ ok tt
unfolding transfer move
paid_out = refl

delete_retryable-gone_example :
    ((delete_retryable root 5 funded).0 ≡ ok true)
    × ((exists_at ticket 900 60 (delete_retryable root 5 funded).1).0 ≡ ok false)
    × (delete_retryable root 5 (delete_retryable root 5 funded).1
        ≡ (ok false, (delete_retryable root 5 funded).1))
delete_retryable-gone_example =
    Deletion.delete_retryable-gone root 5 data_separate 900 60 funded (omega (arith, funded_slots))
      (omega (arith, funded_slots)) (omega (arith, funded_slots)) paid_out
