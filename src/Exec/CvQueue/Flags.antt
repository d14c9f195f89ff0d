-- ===== src/Exec/CvQueue/Flags.antt =====
-- `cv_queue_flag` and the aliases `spsc_cv_queue`, `mpmc_cv_queue`, `spmc_cv_queue` and
-- `mpsc_cv_queue` of include/yk/exec/cv_queue.hpp.
use Prim.Native.Nat.{bit_and, bit_or, bit_xor}
use yk_util.Base.{ℕ, Bool, not, ◌==◌}

pub record Traits : Type 0 where
  pub is_multi_producer : Bool
  pub is_multi_consumer : Bool
  pub is_queue_based_push_pop : Bool

abbrev pub is_single_producer : Traits → Bool
is_single_producer t = not t.is_multi_producer

abbrev pub is_single_consumer : Traits → Bool
is_single_consumer t = not t.is_multi_consumer

abbrev pub multi_producer : ℕ
multi_producer = 0b01

abbrev pub multi_consumer : ℕ
multi_consumer = 0b10

abbrev pub producer_consumer_mask : ℕ
producer_consumer_mask = 0b11

abbrev pub stop_token_support : ℕ
stop_token_support = 0b100

abbrev pub queue_based_push_pop : ℕ
queue_based_push_pop = 0b1000

-- `static_cast<bool>(flags & flag)`
abbrev pub has : ℕ → ℕ → Bool
has flags flag = not (bit_and flags flag == 0)

unfoldable pub traits : ℕ → Traits
traits flags = record {
  is_multi_producer = has flags multi_producer;
  is_multi_consumer = has flags multi_consumer;
  is_queue_based_push_pop = has flags queue_based_push_pop;
}

-- `(Flags & ~cv_queue_flag::producer_consumer_mask) | kind`, on the 32 bits of `unsigned`
unfoldable pub with_kind : ℕ → ℕ → ℕ
with_kind kind flags = bit_or (bit_and flags (bit_xor producer_consumer_mask 0xffffffff)) kind
