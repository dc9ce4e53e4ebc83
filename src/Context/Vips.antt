-- ===== src/Context/Vips.antt =====
-- VIP seats: `redp2p_find_vip` to `redp2p_add_vip`, `redp2p_get_register_pass` and the parser
-- `redp2p_set_vip`. The texts written to the error buffer are not modelled.
use redp2p_c.Prelude.{
  ℕ, zero, suc, ◌*◌, ◌/◌, Bool, true, false, ◌&&◌, not, List, [], ◌∷◌, ◌++◌, Option, none, some,
  Bytes, ltb, if◌then◌else◌, length, same_text, find_index, get_elem?,
}
use redp2p_c.Limits.{size_max}
use redp2p_c.Text.{is_valid_id, is_valid_pass_token, is_space, is_empty}
use redp2p_c.Context.{
  Context, Code, ok, error, einval, Vip, Peer, sizeof_vip, n_vips, update_nonvip_cap,
}

abbrev pub names_vip : Bytes → Vip → Bool
names_vip id v = same_text v.id id

unfoldable pub find_vip : List Vip → Bytes → Option ℕ
unfolding find_index
find_vip vips id = find_index (names_vip id) vips

abbrev pub is_some {ℓ} : {A : Type ℓ} → Option A → Bool
is_some none = false
is_some (some _) = true

-- The loop of `redp2p_count_nonvip_peers`.
unfoldable pub count_nonvip : List Vip → List Peer → ℕ
count_nonvip vips [] = 0
count_nonvip vips (p ∷ peers) =
    let rest = count_nonvip vips peers in if is_some (find_vip vips p.id) then rest else suc rest

unfoldable pub count_nonvip_peers : Context → ℕ
unfolding count_nonvip
count_nonvip_peers c = count_nonvip c.vips c.peers

-- Room for one more entry; `grow n` says whether `realloc` to n entries succeeds.
vip_storage : (ℕ → Bool) → ℕ → ℕ → Option ℕ
vip_storage grow n cap =
    if ltb n cap
    then some cap
    else if ltb (size_max / 2) cap
    then none
    else let wanted = if ltb 0 cap then cap * 2 else 8 in
      if ltb (size_max / sizeof_vip) wanted then none else if grow wanted then some wanted else none

pub add_vip : (ℕ → Bool) → Context → Bytes → Bytes → Context × Code
unfolding vip_storage
add_vip grow c id pass =
    if not (is_valid_id id)
    then (c, error)
    else if not (is_valid_pass_token pass)
    then (c, error)
    else if is_some (find_vip c.vips id)
    then (c, error)
    else elim (vip_storage grow (n_vips c) c.vips_cap) [
      | none ↦ (c, error)
      | some cap ↦
          (record c { vips = c.vips ++ record { id = id; pass = pass } ∷ []; vips_cap = cap }, ok)
    ]

abbrev pass_at : List Vip → Bytes → Option ℕ → Bytes
pass_at vips default none = default
pass_at vips default (some i) = elim (get_elem? vips i) [ none ↦ default | some v ↦ v.pass ]

-- The VIP password of a reserved identifier, and the global one of any other.
unfoldable pub get_register_pass : Context → Bytes → Bytes
get_register_pass c id = pass_at c.vips c.pass (find_vip c.vips id)

pub set_pass : Context → Bytes → Context × Code
set_pass c pass =
    if not (is_empty pass) && not (is_valid_pass_token pass)
    then (c, einval)
    else (record c { pass = pass }, ok)

-- `while (*cursor && !redp2p_is_space(*cursor)) cursor++`: the token and what follows it.
unfoldable pub take_word : Bytes → Bytes × Bytes
take_word [] = ([], [])
take_word (ch ∷ text) =
    let (word, rest) = take_word text in if is_space ch then ([], ch ∷ text) else (ch ∷ word, rest)

unfoldable pub skip_space : Bytes → Bytes
skip_space [] = []
skip_space (ch ∷ text) = let rest = skip_space text in if is_space ch then rest else ch ∷ text

-- The end of `redp2p_trim`, which drops trailing whitespace.
unfoldable pub trim_end : Bytes → Bytes
trim_end [] = []
trim_end (ch ∷ text) =
    let rest = trim_end text in
    if is_space ch then (if is_empty rest then [] else ch ∷ rest) else ch ∷ rest

pub trim : Bytes → Bytes
unfolding skip_space trim_end
trim text = trim_end (skip_space text)

unfoldable pub clear_vips : Context → Context
unfolding update_nonvip_cap
clear_vips c = update_nonvip_cap (record c { vips = []; vips_cap = 0 })

-- The loop over id and password pairs. `none` is a loop that has used up its fuel.
unfoldable pub vip_pairs : (ℕ → Bool) → ℕ → Context → Bytes → Option (Context × Code)
vip_pairs grow zero c cursor = none
vip_pairs grow (suc fuel) c [] = some (update_nonvip_cap c, ok)
vip_pairs grow (suc fuel) c (ch ∷ text) =
    let id = take_word (ch ∷ text) in
    let after_id = skip_space id.1 in
    let pass = take_word after_id in
    let added = add_vip grow c id.0 pass.0 in
    let rest = vip_pairs grow fuel added.0 (skip_space pass.1) in
    if is_empty after_id
    then some (clear_vips c, error)
    else elim added.1 [ ok ↦ rest | _ ↦ some (clear_vips added.0, error) ]

-- `copied` says whether the buffer for the copy could be allocated.
pub set_vip : (ℕ → Bool) → Bool → Context → Bytes → Option (Context × Code)
unfolding clear_vips vip_pairs trim
set_vip grow copied c vip =
    if is_empty vip
    then some (clear_vips c, ok)
    else if not copied
    then some (clear_vips c, error)
    else vip_pairs grow (suc (length vip)) (clear_vips c) (trim vip)
