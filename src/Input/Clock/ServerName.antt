-- ===== src/Input/Clock/ServerName.antt =====
-- main/clock_model.c, lines 44-71: the check of a time server's name. The name is the list of the
-- bytes before its terminator.
use esp32_p4_bacnet_switches.Base.{
  ℕ, zero, suc, ◌+◌, ◌≤◌, ◌<◌, ◌≡◌, refl, Bool, true, false, not, ◌||◌, ◌&&◌, List, [], ◌∷◌, ltb,
  leb, ◌==◌, if◌then◌else◌, length, all_of, arith,
}

abbrev pub server_max_length : ℕ
server_max_length = 253

unfoldable pub alphanumeric : ℕ → Bool
alphanumeric c = (leb 97 c && leb c 122) || (leb 65 c && leb c 90) || (leb 48 c && leb c 57)

-- What ends the loop at a byte that is no dot.
unfoldable pub is_bad_byte : ℕ → ℕ → Bool
is_bad_byte c label_length =
    (not (alphanumeric c) && not (c == 45))
    || (label_length == 0 && not (alphanumeric c))
    || ltb 63 (label_length + 1)

-- The loop, with the turns that are left; the end of the list is the terminator.
unfoldable pub check_name : ℕ → List ℕ → ℕ → ℕ → Bool
unfolding is_bad_byte
check_name zero name label_length previous = false
check_name (suc turns) [] label_length previous = ltb 0 label_length && alphanumeric previous
check_name (suc turns) (c ∷ name) label_length previous =
    let after_dot = check_name turns name 0 c in
    let in_label = check_name turns name (label_length + 1) c in
    if c == 46
    then if label_length == 0 || not (alphanumeric previous) then false else after_dot
    else if is_bad_byte c label_length
    then false
    else in_label

-- The empty name stands for the server that DHCP names.
unfoldable pub clock_server_name_valid : List ℕ → Bool
unfolding check_name
clock_server_name_valid [] = true
clock_server_name_valid (c ∷ name) = check_name (server_max_length + 1) (c ∷ name) 0 0

-- A letter, a digit, a hyphen or a dot.
unfoldable pub is_name_byte : ℕ → Bool
is_name_byte c = alphanumeric c || c == 45 || c == 46

check_name-safe :
    (turns : ℕ) (name : List ℕ) (label_length previous : ℕ)
    → check_name turns name label_length previous ≡ true
    → (length name < turns) × (all_of is_name_byte name ≡ true)
unfolding check_name is_name_byte
check_name-safe zero name label_length previous h = cc
check_name-safe (suc turns) [] label_length previous h = (omega arith, refl)
check_name-safe (suc turns) (c ∷ name) label_length previous h =
    let dot = check_name-safe turns name 0 c in
    let label = check_name-safe turns name (label_length + 1) c in
    (ground (arith, dot, label), ground (arith, dot, label))

-- A time server's name that is accepted has at most 253 bytes, each a letter, a digit, a hyphen or
-- a dot.
pub clock_server_name_valid-safe :
    (name : List ℕ)
    → clock_server_name_valid name ≡ true
    → (length name ≤ server_max_length) × (all_of is_name_byte name ≡ true)
unfolding clock_server_name_valid
clock_server_name_valid-safe [] h = (omega arith, refl)
clock_server_name_valid-safe (c ∷ name) h =
    let safe = check_name-safe (server_max_length + 1) (c ∷ name) 0 0 h in
    (omega (arith, safe.0), safe.1)
