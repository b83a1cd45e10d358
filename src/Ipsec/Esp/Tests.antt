-- ===== src/Ipsec/Esp/Tests.antt =====
-- esp.go: a run, and the theorem at a concrete input, with toy algorithms.
use swu_go.Prelude.{◌+◌, ◌%◌, ◌^◌, ◌≡◌, refl, subst, false, some, [], ◌∷◌, ok, arith}
use swu_go.Prelude.Bytes.{Bytes, u32_at}
use swu_go.Crypto.{IntegrityAlgorithm, IntegrityLaws}
use swu_go.Swu.Message.Tests.{plain_cipher, plain_cipher-Laws, checksum, checksum-Laws}
use swu_go.Ipsec.Esp.{
  SecurityAssociation, new_security_association_cbc, encapsulate, encapsulate_numbered, decapsulate,
}
use swu_go.Ipsec.Esp.RoundTrip.{EspWorks, decapsulate-encapsulate}

abbrev tunnel : SecurityAssociation
tunnel = record {
  spi = 0x01020304;
  encryption_alg = plain_cipher;
  encryption_key = [];
  integrity_alg2 = some checksum;
  integrity_key = [];
  is_aead = false;
  sequence_number = 0;
}

made : new_security_association_cbc 0x01020304 plain_cipher [] checksum [] ≡ tunnel
unfolding new_security_association_cbc
made = refl

-- An IPv4 packet of one byte: padding, its length, and the next header.
sealed_run :
    (encapsulate (0x45 ∷ []) tunnel (some (8 ∷ 9 ∷ []))).1
    ≡ ok (1 ∷ 2 ∷ 3 ∷ 4 ∷ 0 ∷ 0 ∷ 0 ∷ 1 ∷ 8 ∷ 9 ∷ 0x45 ∷ 1 ∷ 1 ∷ 4 ∷ 14 ∷ [])
unfolding encapsulate encapsulate_numbered
sealed_run = refl

same_checksum : (a : IntegrityAlgorithm) → some checksum ≡ some a → checksum ≡ a
same_checksum a e = cc

tunnel-Works : EspWorks tunnel
tunnel-Works = record {
  encrypts = plain_cipher-Laws;
  integrity_laws = λ a e. subst IntegrityLaws (same_checksum a e) checksum-Laws;
  block_size = (omega arith, omega arith);
}

decapsulate-encapsulate_example :
    (packet : Bytes) × ((encapsulate (0x45 ∷ 7 ∷ []) tunnel (some (8 ∷ 9 ∷ []))).1 ≡ ok packet)
    × (u32_at 4 packet ≡ (tunnel.sequence_number + 1) % 2 ^ 32)
    × (decapsulate packet (record tunnel { sequence_number = 5 }) ≡ ok (0x45 ∷ 7 ∷ []))
decapsulate-encapsulate_example =
    decapsulate-encapsulate tunnel (0x45 ∷ 7 ∷ []) (8 ∷ 9 ∷ []) 5 tunnel-Works (omega arith) refl
