-- ===== src/Primitives.antt =====
-- The primitives that the crates sha2, hkdf and ed25519-dalek supply, as parameters with the
-- documented facts that the program relies on, and toy instances that meet them.
use native.Mathlib.Nat.{add_comm}
use chrono_shift.Prelude.{
  zero, suc, ◌%◌, ◌<◌, ◌≤◌, ◌^◌, All, ℕ, ◌+◌, ◌≡◌, refl, ap, sym, length-append, none, Bool, true,
  not, ◌==◌, Option, some, ◌++◌, drop, arith, length, replicate, length-replicate, get_or,
}
use chrono_shift.Prelude.Keys.{Bytes, IsByte, bytes_beq, bytes_beq_iff}

-- `Sha256::digest`
pub record Hash : Type 0 where
  pub digest : Bytes → Bytes
  pub length-digest : (m : Bytes) → length (digest m) ≡ 32

-- `Hkdf::<Sha256>::new(None, key).expand(info, &mut [0u8; 32])`, and the same with `Some(salt)`.
pub record Kdf : Type 0 where
  pub expand : Bytes → Bytes → Bytes
  pub length-expand : (key info : Bytes) → length (expand key info) ≡ 32
  pub expand_salted : Bytes → Bytes → Bytes → Bytes

abbrev pub toy_hash : Hash
toy_hash = record {
  digest = λ m. replicate 32 (length m);
  length-digest = λ m. length-replicate 32 (length m);
}

abbrev pub toy_kdf : Kdf
toy_kdf = record {
  expand = λ key info. replicate 32 (get_or key 0 7);
  length-expand = λ key info. length-replicate 32 (get_or key 0 7);
  expand_salted = λ salt key info. replicate 32 (get_or key 0 7);
}

-- Ed25519: `SigningKey::sign`, `SigningKey::verifying_key`, `VerifyingKey::verify` and, as
-- `valid_key`, whether `VerifyingKey::from_bytes` takes 32 bytes. A signature has 64 bytes, which `Signature::from_slice` asks for, and verifies under the key that made it.
pub record Signer : Type 0 where
  pub sign : Bytes → Bytes → Bytes
  pub verifying_key : Bytes → Bytes
  pub verify : Bytes → Bytes → Bytes → Bool
  pub length-sign : (sk m : Bytes) → length (sign sk m) ≡ 64
  pub verify-sign : (sk m : Bytes) → verify (verifying_key sk) m (sign sk m) ≡ true
  pub valid_key : Bytes → Bool
  pub valid_key-verifying_key : (sk : Bytes) → valid_key (verifying_key sk) ≡ true
  pub length-verifying_key : (sk : Bytes) → length (verifying_key sk) ≡ 32
  pub verifying_key_bytes : (sk : Bytes) → All IsByte (verifying_key sk)

pub bytes-replicate : (n b : ℕ) → b < 256 → All IsByte (replicate n b)
bytes-replicate zero b small = tt
bytes-replicate (suc n) b small = (small, bytes-replicate n b small)

abbrev pub toy_verifying_key : Bytes → Bytes
toy_verifying_key sk = replicate 32 (get_or sk 0 0 % 256)

abbrev pub toy_signer : Signer
toy_signer = record {
  sign = λ sk m. replicate 64 (get_or (toy_verifying_key sk) 0 0 + length m);
  verifying_key = toy_verifying_key;
  verify = λ vk m s. bytes_beq s (replicate 64 (get_or vk 0 0 + length m));
  length-sign = λ sk m. length-replicate 64 (get_or (toy_verifying_key sk) 0 0 + length m);
  verify-sign = λ sk m.
      (bytes_beq_iff (replicate 64 (get_or (toy_verifying_key sk) 0 0 + length m)) _).1 refl;
  valid_key = λ vk. true;
  valid_key-verifying_key = λ sk. refl;
  length-verifying_key = λ sk. length-replicate 32 (get_or sk 0 0 % 256);
  verifying_key_bytes = λ sk. bytes-replicate 32 (get_or sk 0 0 % 256) (omega arith);
}

-- AES-256-GCM with a 12-byte nonce: `encrypt` fails on inputs beyond its limits; what it returns
-- has a 16-byte tag more, and decrypts under the same key and nonce.
pub record Aead : Type 0 where
  pub encrypt : Bytes → Bytes → Bytes → Option Bytes
  pub decrypt : Bytes → Bytes → Bytes → Option Bytes
  pub length-encrypt :
      (key nonce plain : Bytes) {c : Bytes}
      → encrypt key nonce plain ≡ some c
      → length c ≡ length plain + 16
  pub decrypt-encrypt :
      (key nonce plain : Bytes) {c : Bytes}
      → encrypt key nonce plain ≡ some c
      → decrypt key nonce c ≡ some plain

unfoldable pub toy_encrypt : Bytes → Bytes
toy_encrypt plain = replicate 16 0 ++ plain

pub toy_length :
    (plain : Bytes) {c : Bytes} → some (toy_encrypt plain) ≡ some c → length c ≡ length plain + 16
unfolding toy_encrypt
toy_length plain e = ground (arith, length-append (replicate {A = ℕ} 16 0) plain)

pub toy_decrypt :
    (plain : Bytes) {c : Bytes} → some (toy_encrypt plain) ≡ some c → some (drop 16 c) ≡ some plain
unfolding toy_encrypt
toy_decrypt plain e = ap (λ o. elim o [ none ↦ none | some c ↦ some (drop 16 c) ]) (sym e)

unfoldable pub toy_aead : Aead
unfolding toy_encrypt
toy_aead = record {
  encrypt = λ key nonce plain. some (toy_encrypt plain);
  decrypt = λ key nonce c. some (drop 16 c);
  length-encrypt = λ key nonce plain e. toy_length plain e;
  decrypt-encrypt = λ key nonce plain e. toy_decrypt plain e;
}

-- AES-256-GCM encrypts everything up to 2^36 bytes.
abbrev pub Encrypts : Aead → Type 0
Encrypts aead =
    (key nonce plain : Bytes)
    → length nonce ≡ 12
    → length plain ≤ 2 ^ 36
    → (c : Bytes) × (aead.encrypt key nonce plain ≡ some c)

pub toy_aead-Encrypts : Encrypts toy_aead
unfolding toy_aead
toy_aead-Encrypts key nonce plain n fits = (toy_encrypt plain, refl)

-- X25519: `PublicKey::from`, `diffie_hellman`, `was_contributory`. Both ends compute one secret.
pub record Dh : Type 0 where
  pub public : Bytes → Bytes
  pub shared : Bytes → Bytes → Bytes
  pub was_contributory : Bytes → Bool
  pub length-public : (sk : Bytes) → length (public sk) ≡ 32
  pub public_bytes : (sk : Bytes) → All IsByte (public sk)
  pub shared_comm : (a b : Bytes) → shared a (public b) ≡ shared b (public a)

abbrev pub toy_dh : Dh
toy_dh = record {
  public = λ sk. replicate 32 (get_or sk 0 0 % 256);
  shared = λ sk pk. replicate 32 (get_or sk 0 0 % 256 + get_or pk 0 0);
  was_contributory = λ s. not (get_or s 0 0 == 0);
  length-public = λ sk. length-replicate 32 (get_or sk 0 0 % 256);
  public_bytes = λ sk. bytes-replicate 32 (get_or sk 0 0 % 256) (omega arith);
  shared_comm =
      λ a b. ap (λ (n : ℕ). replicate 32 n) (add_comm (get_or a 0 0 % 256) (get_or b 0 0 % 256));
}
