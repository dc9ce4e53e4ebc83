-- ===== src/Proof/HashTests.antt =====
-- Known digests.
use redp2p_c.Prelude.{◌≡◌, refl, codes, some}
use mathlib.Core.List.{zip}
use redp2p_c.Text.Hex.{hex_encode}
use redp2p_c.Proof.Hash.{sha256, hmac_sha256}

sha256_abc :
    hex_encode (sha256 (codes "abc")) 65
    ≡ some (codes "ba7816bf8f01cfea414140de5dae2223b00361a396177a9cb410ff61f20015ad")
unfolding sha256 hex_encode zip
sha256_abc = refl

hmac_jefe :
    hex_encode (hmac_sha256 (codes "Jefe") (codes "what do ya want for nothing?")) 65
    ≡ some (codes "5bdcc146bf60754e6a042426089575c75a003f089d2739839dec58b964ec3843")
unfolding hmac_sha256 hex_encode zip
hmac_jefe = refl
