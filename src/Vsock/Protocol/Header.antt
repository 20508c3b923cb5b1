-- ===== src/Vsock/Protocol/Header.antt =====
-- The four bytes of a length.
use agentic_ai_tee.Base.{
  ℕ, ◌^◌, ◌<◌, ◌≤◌, ◌≡◌, refl, List, [], ◌∷◌, ◌++◌, length, All, arith, take, drop,
}
use agentic_ai_tee.Vsock.Protocol.{pack_le, unpack_le, header_size, max_message_size}

pub unpack_le-pack_le : (n : ℕ) → n < 2 ^ 32 → unpack_le (pack_le n) ≡ n
unfolding unpack_le pack_le
unpack_le-pack_le n h = omega arith

pub unpack_le-pack_le_size : (n : ℕ) → n ≤ max_message_size → unpack_le (pack_le n) ≡ n
unpack_le-pack_le_size n h = unpack_le-pack_le n (omega arith)

pub length-pack_le : (n : ℕ) → length (pack_le n) ≡ header_size
unfolding pack_le
length-pack_le n = refl

pub take-pack_le : (n : ℕ) (bs : List ℕ) → take header_size (pack_le n ++ bs) ≡ pack_le n
unfolding pack_le
take-pack_le n bs = refl

pub drop-pack_le : (n : ℕ) (bs : List ℕ) → drop header_size (pack_le n ++ bs) ≡ bs
unfolding pack_le
drop-pack_le n bs = refl

-- Four bytes never name a length past 32 bits.
pub unpack_le-lt : (b : List ℕ) → All (λ x. x < 256) b → unpack_le b < 2 ^ 32
unfolding unpack_le
unpack_le-lt [] h = omega arith
unpack_le-lt (a ∷ []) h = omega arith
unpack_le-lt (a ∷ b ∷ []) h = omega arith
unpack_le-lt (a ∷ b ∷ c ∷ []) h = omega arith
unpack_le-lt (a ∷ b ∷ c ∷ d ∷ []) h = omega arith
unpack_le-lt (a ∷ b ∷ c ∷ d ∷ e ∷ r) h = omega arith
