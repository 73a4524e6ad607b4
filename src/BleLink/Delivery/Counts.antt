-- ===== src/BleLink/Delivery/Counts.antt =====
-- The number of notifications that a frame is cut into.
use esp32_monitor.Base.{ℕ, zero, suc, ◌+◌, ◌-◌, ◌*◌, ◌/◌, ◌≤◌, ◌<◌, ◌≡◌, ap, arith}
use native.Mathlib.Nat.{div-mul-le_self, lt-div-mul-add, mul-le-mul_left}
use esp32_monitor.Protocol.{max_frame_size}
use esp32_monitor.BleLink.{default_att_mtu, max_att_mtu}
use esp32_monitor.BleLink.Send.{fragment_capacity, fragment_count}

pub capacity_of :
    (mtu : ℕ) → default_att_mtu ≤ mtu → mtu ≤ max_att_mtu → fragment_capacity mtu ≡ mtu - 7
unfolding fragment_capacity
capacity_of mtu a b = ground arith

-- The rounds of a count are one more than those that leave a byte for the last one.
pub record IsCount (n capacity count : ℕ) : Type 0 where
  pub some_rounds : 0 < count
  pub few : count ≤ 33
  pub too_few : (count - 1) * capacity < n
  pub enough : n ≤ (count - 1) * capacity + capacity

bounds-IsCount :
    (n c q : ℕ)
    → 16 ≤ c
    → 0 < n
    → n ≤ max_frame_size
    → q * c ≤ n + c - 1
    → n + c - 1 < q * c + c
    → IsCount n c q
bounds-IsCount n c zero a b d e f = omega arith
bounds-IsCount n c (suc q) a b d e f =
    let least : q * 16 ≤ q * c = mul-le-mul_left q a in
    let before : (suc q - 1) * c ≡ q * c = ap (λ (k : ℕ). k * c) (omega arith) in
    let all : suc q * c ≡ c + q * c = grind arith in omega arith

pub fragment_count-IsCount :
    (n capacity : ℕ)
    → 16 ≤ capacity
    → 0 < n
    → n ≤ max_frame_size
    → IsCount n capacity (fragment_count n capacity)
fragment_count-IsCount n c a b d =
    bounds-IsCount n c ((n + c - 1) / c) a b d (div-mul-le_self (n + c - 1) c)
      (lt-div-mul-add (omega arith))
