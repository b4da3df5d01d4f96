-- ===== src/Server/Limit.antt =====
-- main/bacnet_server.c, lines 347-369: which datagrams are looked at, and how many are answered. An
-- address is the number of its four octets in host order; times are microseconds since the start.
use esp32_p4_bacnet_switches.Base.{
  ℕ, ◌+◌, ◌-◌, ◌≤◌, ◌<◌, Bool, true, false, not, ◌&&◌, List, [], ◌∷◌, arith, leb, ◌==◌,
  if◌then◌else◌, bit_and, All, ◌*◌,
}

abbrev pub max_responses_per_second : ℕ
max_responses_per_second = 50

-- `AF_INET` and the addresses are those of the socket library.
unfoldable pub valid_source : ℕ → ℕ → ℕ → Bool
valid_source inet family address =
    family == inet
    && not (address == 0)
    && not (address == 0xFFFFFFFF)
    && not (bit_and address 0xF0000000 == 0xE0000000)

-- `window_started_us` and `responses`
pub record Window : Type 0 where
  pub started_us : ℕ
  pub responses : ℕ

abbrev pub current_window : Window → ℕ → Window
current_window w now =
    if leb 1000000 (now - w.started_us) then record { started_us = now; responses = 0 } else w

unfoldable pub response_allowed : Window → ℕ → Window × Bool
response_allowed w now =
    let v = current_window w now in
    if leb max_responses_per_second v.responses
    then (v, false)
    else (record v { responses = v.responses + 1 }, true)

-- How many of the calls at these times are allowed.
unfoldable pub allowed_count : Window → List ℕ → ℕ
allowed_count w [] = 0
allowed_count w (now ∷ times) =
    let (v, allowed) = response_allowed w now in (if allowed then 1 else 0) + allowed_count v times

-- Times in the second from `a` on.
abbrev pub AllWithin : ℕ → List ℕ → Type 0
AllWithin a = All (λ t. (a ≤ t) × (t < a + 1000000))

allowed_count-window :
    (a : ℕ) (w : Window) (times : List ℕ)
    → AllWithin a times
    → a ≤ w.started_us
    → w.responses ≤ max_responses_per_second
    → allowed_count w times + w.responses ≤ max_responses_per_second
unfolding allowed_count response_allowed
allowed_count-window a w [] within open_ few = omega arith
allowed_count-window a w (now ∷ times) within open_ few =
    let lo = within.0.0 in
    let hi = within.0.1 in
    ground (
      arith,
      allowed_count-window a w times within.1,
      allowed_count-window a (record w { responses = w.responses + 1 }) times within.1,
    )

-- If the window has counted at most fifty responses, then of any calls at times within one second,
-- in any order, so many are allowed that with those already counted they are at most a hundred.
pub allowed_count-second :
    (a : ℕ) (w : Window) (times : List ℕ)
    → AllWithin a times
    → w.responses ≤ max_responses_per_second
    → allowed_count w times + w.responses ≤ 2 * max_responses_per_second
unfolding allowed_count response_allowed
allowed_count-second a w [] within few = omega arith
allowed_count-second a w (now ∷ times) within few =
    let lo = within.0.0 in
    let hi = within.0.1 in
    ground (
      arith,
      allowed_count-window a (record { started_us = now; responses = 1 }) times within.1,
      allowed_count-second a w times within.1,
      allowed_count-second a (record w { responses = w.responses + 1 }) times within.1,
    )
