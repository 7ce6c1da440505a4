-- ===== src/Registry/Decode/Numbers.antt =====
-- The numbers that crates/servicemanager-registry/src/imp.rs reads.
use ngsm.Prelude.{
  ℕ, ◌^◌, ◌<◌, ◌≡◌, refl, sym, ◌⊎◌, inl, inr, List, arith, ltb, ◌==◌, ==_iff, Bool-cases, length,
}
use ngsm.Text.{Text}
use ngsm.Result.{ok}
use ngsm.Registry.Bytes.{
  from_le, reg_dword, reg_qword, u32_bytes, IsBytes, from_le_bounds, from_le-u32_bytes,
}
use ngsm.Registry.Decode.{decode_u32}

-- A number that is read back has 32 bits, and it is the number that the bytes make up.
pub decode_u32_bounds :
    (name : Text) (ty : ℕ) (bytes : List ℕ) (v : ℕ)
    → IsBytes bytes
    → decode_u32 name ty bytes ≡ ok v
    → (v < 2 ^ 32) × (v ≡ from_le bytes) × ((ty ≡ reg_dword) ⊎ (ty ≡ reg_qword))
unfolding decode_u32
decode_u32_bounds name ty bytes v b h = elim (Bool-cases (ty == reg_dword)) [
  | inl dword ↦ elim (Bool-cases (length bytes == 4)) [
    | inl four ↦
        let e : from_le bytes ≡ v = cc (rw (dword, four) at h) in
        let small = (from_le_bounds bytes b ((==_iff _ _).0 four)).0 in
        (rw (← e) small, sym e, inl ((==_iff _ _).0 dword))
    | inr wrong ↦ cc (rw (dword, wrong) at h)
  ]
  | inr other ↦ elim (Bool-cases (ty == reg_qword)) [
    | inl qword ↦ elim (Bool-cases (length bytes == 8)) [
      | inl eight ↦ elim (Bool-cases (ltb 0xffff_ffff (from_le bytes))) [
        | inl large ↦ cc (rw (other, qword, eight, large) at h)
        | inr fits ↦
            let e : from_le bytes ≡ v = cc (rw (other, qword, eight, fits) at h) in
            (rw (← e) (ground arith), sym e, inr ((==_iff _ _).0 qword))
      ]
      | inr wrong ↦ cc (rw (other, qword, wrong) at h)
    ]
    | inr none_such ↦ cc (rw (other, none_such) at h)
  ]
]

pub decode_u32-u32_bytes :
    (name : Text) (v : ℕ) → v < 2 ^ 32 → decode_u32 name reg_dword (u32_bytes v) ≡ ok v
unfolding decode_u32
decode_u32-u32_bytes name v h = rw (from_le-u32_bytes v h) (unfold u32_bytes in refl)
