-- ===== src/Word/Bytes.antt =====
-- Four bytes, least significant first: `emit_int32` and `patch_int32` of codegen.c take a word
-- apart, `read_int32` of vm.c puts it together.
use advanced_vm.Common.{ℕ, ◌+◌, ◌*◌, ◌/◌, ◌%◌, ◌^◌, ◌≡◌, List, [], ◌∷◌, arith, All}
use advanced_vm.Word.{IsWord, IsByte}

-- `(val >> 8 * k) & 0xFF`
unfoldable pub byte_at : ℕ → ℕ → ℕ
byte_at val k = val / 2 ^ (8 * k) % 256

-- The shifted bytes have no bit in common, so `|` adds them.
unfoldable pub join_bytes : ℕ → ℕ → ℕ → ℕ → ℕ
join_bytes b₀ b₁ b₂ b₃ = b₀ + b₁ * 2 ^ 8 + b₂ * 2 ^ 16 + b₃ * 2 ^ 24

unfoldable pub int32_bytes : ℕ → List ℕ
unfolding byte_at
int32_bytes val = byte_at val 0 ∷ byte_at val 1 ∷ byte_at val 2 ∷ byte_at val 3 ∷ []

-- Reading the four bytes that a 32-bit pattern was taken apart into gives the pattern.
pub join-byte_at :
    (val : ℕ)
    → IsWord val
    → join_bytes (byte_at val 0) (byte_at val 1) (byte_at val 2) (byte_at val 3) ≡ val
unfolding join_bytes byte_at
join-byte_at val h = omega arith

pub byte_at-IsByte : (val k : ℕ) → IsByte (byte_at val k)
unfolding byte_at
byte_at-IsByte val k = omega arith

pub join_bytes-IsWord :
    (b₀ b₁ b₂ b₃ : ℕ)
    → IsByte b₀
    → IsByte b₁
    → IsByte b₂
    → IsByte b₃
    → IsWord (join_bytes b₀ b₁ b₂ b₃)
unfolding join_bytes
join_bytes-IsWord b₀ b₁ b₂ b₃ h₀ h₁ h₂ h₃ = omega arith

pub int32_bytes-IsByte : (val : ℕ) → All IsByte (int32_bytes val)
unfolding int32_bytes
int32_bytes-IsByte val = omega arith
