-- ===== src/Proof/Hash.antt =====
-- SHA-256 and HMAC-SHA256 (src/libredp2p.c): `redp2p_sha256_transform`, `_init`, `_update`, `_final`
-- and `redp2p_hmac_sha256`. The block buffer is the list of the bytes gathered since the last full
-- block; `crypto_wipe` clears temporaries and returns nothing.
use Prim.Native.Nat.{bit_and, bit_or, bit_xor}
use mathlib.Core.List.{reverse, zip, foldl}
use redp2p_c.Prelude.{
  ℕ, zero, suc, ◌+◌, ◌-◌, ◌*◌, ◌/◌, ◌%◌, ◌^◌, List, [], ◌∷◌, ◌++◌, map, Bytes, ltb, ◌==◌,
  if◌then◌else◌, length, get_or, replicate, ◌≡◌, refl, ap,
}
use redp2p_c.Limits.{u32_mod, u64_mod}

abbrev sha256_k : List ℕ
sha256_k =
    0x428a2f98 ∷ 0x71374491 ∷ 0xb5c0fbcf ∷ 0xe9b5dba5 ∷ 0x3956c25b ∷ 0x59f111f1 ∷ 0x923f82a4
    ∷ 0xab1c5ed5 ∷ 0xd807aa98 ∷ 0x12835b01 ∷ 0x243185be ∷ 0x550c7dc3 ∷ 0x72be5d74 ∷ 0x80deb1fe
    ∷ 0x9bdc06a7 ∷ 0xc19bf174 ∷ 0xe49b69c1 ∷ 0xefbe4786 ∷ 0x0fc19dc6 ∷ 0x240ca1cc ∷ 0x2de92c6f
    ∷ 0x4a7484aa ∷ 0x5cb0a9dc ∷ 0x76f988da ∷ 0x983e5152 ∷ 0xa831c66d ∷ 0xb00327c8 ∷ 0xbf597fc7
    ∷ 0xc6e00bf3 ∷ 0xd5a79147 ∷ 0x06ca6351 ∷ 0x14292967 ∷ 0x27b70a85 ∷ 0x2e1b2138 ∷ 0x4d2c6dfc
    ∷ 0x53380d13 ∷ 0x650a7354 ∷ 0x766a0abb ∷ 0x81c2c92e ∷ 0x92722c85 ∷ 0xa2bfe8a1 ∷ 0xa81a664b
    ∷ 0xc24b8b70 ∷ 0xc76c51a3 ∷ 0xd192e819 ∷ 0xd6990624 ∷ 0xf40e3585 ∷ 0x106aa070 ∷ 0x19a4c116
    ∷ 0x1e376c08 ∷ 0x2748774c ∷ 0x34b0bcb5 ∷ 0x391c0cb3 ∷ 0x4ed8aa4a ∷ 0x5b9cca4f ∷ 0x682e6ff3
    ∷ 0x748f82ee ∷ 0x78a5636f ∷ 0x84c87814 ∷ 0x8cc70208 ∷ 0x90befffa ∷ 0xa4506ceb ∷ 0xbef9a3f7
    ∷ 0xc67178f2 ∷ []

pub record State : Type 0 where
  a : ℕ
  b : ℕ
  c : ℕ
  d : ℕ
  e : ℕ
  f : ℕ
  g : ℕ
  h : ℕ

pub record Sha256 : Type 0 where
  pub state : State
  pub count : ℕ
  pub buf : Bytes

-- Sums and complements of `uint32_t`.
add32 : ℕ → ℕ → ℕ
add32 x y = (x + y) % u32_mod

not32 : ℕ → ℕ
not32 x = u32_mod - 1 - x

ror : ℕ → ℕ → ℕ
ror x n = bit_or (x / 2 ^ n) (x * 2 ^ (32 - n) % u32_mod)

ch : ℕ → ℕ → ℕ → ℕ
unfolding not32
ch x y z = bit_xor (bit_and x y) (bit_and (not32 x) z)

maj : ℕ → ℕ → ℕ → ℕ
maj x y z = bit_xor (bit_xor (bit_and x y) (bit_and x z)) (bit_and y z)

-- The macros S0, S1, s0 and s1.
upper_sigma0 : ℕ → ℕ
unfolding ror
upper_sigma0 x = bit_xor (bit_xor (ror x 2) (ror x 13)) (ror x 22)

upper_sigma1 : ℕ → ℕ
unfolding ror
upper_sigma1 x = bit_xor (bit_xor (ror x 6) (ror x 11)) (ror x 25)

lower_sigma0 : ℕ → ℕ
unfolding ror
lower_sigma0 x = bit_xor (bit_xor (ror x 7) (ror x 18)) (x / 2 ^ 3)

lower_sigma1 : ℕ → ℕ
unfolding ror
lower_sigma1 x = bit_xor (bit_xor (ror x 17) (ror x 19)) (x / 2 ^ 10)

-- The 16 big-endian words of a block, the newest first.
block_words : Bytes → List ℕ → List ℕ
block_words (b0 ∷ b1 ∷ b2 ∷ b3 ∷ block) acc =
    block_words block ((b0 * 2 ^ 24 + b1 * 2 ^ 16 + b2 * 2 ^ 8 + b3) ∷ acc)
block_words _ acc = acc

-- `W[t]` for the next t, from the words before it, the newest first.
extend_words : ℕ → List ℕ → List ℕ
unfolding lower_sigma0 lower_sigma1 add32
extend_words zero w = w
extend_words (suc n) w = extend_words n (
    add32
      (add32 (add32 (lower_sigma1 (get_or w 1 0)) (get_or w 6 0)) (lower_sigma0 (get_or w 14 0)))
      (get_or w 15 0)
    ∷ w)

one_round : State → ℕ × ℕ → State
unfolding upper_sigma0 upper_sigma1 ch maj add32
one_round s (k, w) =
    let t1 = add32 (add32 (add32 (add32 s.h (upper_sigma1 s.e)) (ch s.e s.f s.g)) k) w in
    let t2 = add32 (upper_sigma0 s.a) (maj s.a s.b s.c) in
    record {
      a = add32 t1 t2;
      b = s.a;
      c = s.b;
      d = s.c;
      e = add32 s.d t1;
      f = s.e;
      g = s.f;
      h = s.g;
    }

transform : State → Bytes → State
unfolding block_words extend_words one_round
transform s block =
    let words = reverse (extend_words 48 (block_words block [])) in
    let r = foldl one_round s (zip sha256_k words) in
    record {
      a = add32 s.a r.a;
      b = add32 s.b r.b;
      c = add32 s.c r.c;
      d = add32 s.d r.d;
      e = add32 s.e r.e;
      f = add32 s.f r.f;
      g = add32 s.g r.g;
      h = add32 s.h r.h;
    }

sha256_init : Sha256
sha256_init = record {
  state = record {
    a = 0x6a09e667;
    b = 0xbb67ae85;
    c = 0x3c6ef372;
    d = 0xa54ff53a;
    e = 0x510e527f;
    f = 0x9b05688c;
    g = 0x1f83d9ab;
    h = 0x5be0cd19;
  };
  count = 0;
  buf = [];
}

update_byte : Sha256 → ℕ → Sha256
unfolding transform
update_byte s byte =
    let count = (s.count + 1) % u64_mod in
    let buf = s.buf ++ byte ∷ [] in
    if count % 64 == 0
    then record { state = transform s.state buf; count = count; buf = [] }
    else record { state = s.state; count = count; buf = buf }

sha256_update : Sha256 → Bytes → Sha256
unfolding update_byte
sha256_update s [] = s
sha256_update s (byte ∷ bytes) = sha256_update (update_byte s byte) bytes

-- The big-endian bytes of a number.
pub be_bytes : ℕ → ℕ → Bytes
be_bytes zero x = []
be_bytes (suc n) x = (x / 2 ^ (8 * n) % 256) ∷ be_bytes n x

state_bytes : State → Bytes
unfolding be_bytes
state_bytes s =
    be_bytes 4 s.a
    ++ (be_bytes 4 s.b
        ++ (be_bytes 4 s.c
            ++ (be_bytes 4 s.d
                ++ (be_bytes 4 s.e ++ (be_bytes 4 s.f ++ (be_bytes 4 s.g ++ be_bytes 4 s.h))))))

last_block : State → Bytes → ℕ → State
unfolding transform be_bytes
last_block s buf bits = transform s (buf ++ (replicate (56 - length buf) 0 ++ be_bytes 8 bits))

sha256_final : Sha256 → Bytes
unfolding last_block state_bytes
sha256_final s =
    let bits = s.count * 8 % u64_mod in
    let idx = s.count % 64 + 1 in
    let buf = s.buf ++ 0x80 ∷ [] in
    state_bytes (
      if ltb 56 idx
      then last_block (transform s.state (buf ++ replicate (64 - idx) 0)) [] bits
      else last_block s.state buf bits)

unfoldable pub sha256 : Bytes → Bytes
unfolding sha256_init sha256_update sha256_final
sha256 data' = sha256_final (sha256_update sha256_init data')

-- The HMAC: the key is hashed where it is longer than a block, and filled up with zeros.
unfoldable pub hmac_sha256 : Bytes → Bytes → Bytes
unfolding sha256
hmac_sha256 key msg =
    let short = if ltb 64 (length key) then sha256 key else key in
    let key_block = short ++ replicate (64 - length short) 0 in
    let ipad = map (λ b. bit_xor b 0x36) key_block in
    let opad = map (λ b. bit_xor b 0x5c) key_block in
    let inner = sha256_final (sha256_update (sha256_update sha256_init ipad) msg) in
    sha256_final (sha256_update (sha256_update sha256_init opad) inner)

-- A digest has 32 bytes, and so has an HMAC.
pub length-hmac_sha256 : (key msg : Bytes) → length (hmac_sha256 key msg) ≡ 32
unfolding hmac_sha256 state_bytes be_bytes
length-hmac_sha256 key msg = refl

pub length-be_bytes : (n x : ℕ) → length (be_bytes n x) ≡ n
unfolding be_bytes
length-be_bytes zero x = refl
length-be_bytes (suc n) x = ap suc (length-be_bytes n x)
