-- ===== src/Libcam/CallTrace/Once.antt =====
-- Two calls that are joined keep each instance in one group.
use cam_alias_checker.Prelude.{
  ℕ, ◌+◌, ◌≤◌, ◌<◌, ltb, ◌&&◌, ◌≡◌, refl, true, false, List, ◌++◌, ◌==◌, arith, Bool-cases, inl,
  inr,
}
use cam_alias_checker.Libcam.CallTrace.{CallTraceInstanceGroup}
use cam_alias_checker.Libcam.CallTrace.Holders.{one_at, holders, holders-append}

-- No instance of the one call is behind one of the other.
abbrev pub Follows : List CallTraceInstanceGroup → List CallTraceInstanceGroup → Type 0
Follows gs hs = (n k : ℕ) → 0 < holders n gs → 0 < holders k hs → n ≤ k

-- An instance that both calls have is the chosen one of each.
pub shared_instance :
    (gs hs : List CallTraceInstanceGroup) (l m n : ℕ)
    → Follows gs hs
    → ((k : ℕ) → 0 < holders k gs → k ≤ l)
    → ((k : ℕ) → 0 < holders k hs → m ≤ k)
    → 0 < holders l gs
    → 0 < holders m hs
    → 0 < holders n gs
    → 0 < holders n hs
    → (n ≡ l) × (l ≡ m)
shared_instance gs hs l m n f behind before inl_l in_m in_g in_h =
    let a = behind n in_g in
    let b = before n in_h in
    let c = f l n inl_l in_h in
    let d = f n m in_g in_m in (omega (arith, a, c), omega (arith, a, b, c, d))

pub joined_once :
    (gs hs gs' more : List CallTraceInstanceGroup) (l m n : ℕ)
    → l ≡ m
    → holders n gs ≤ 1
    → holders n hs ≤ 1
    → (0 < holders n gs → 0 < holders n hs → (n ≡ l) × (l ≡ m))
    → holders n gs' ≡ holders n gs
    → holders n hs ≡ one_at n m + holders n more
    → holders n (gs' ++ more) ≤ 1
joined_once gs hs gs' more l m n same a b f held held' =
    let parts = holders-append n gs' more in
    elim (Bool-cases (ltb 0 (holders n gs) && ltb 0 (holders n hs))) [
      | inl p ↦
          let (e, e') = f (ground (arith, p)) (ground (arith, p)) in
          let own : one_at n m ≡ 1 =
            (let t : (n == m) ≡ true = ground (arith, e, e') in rw t refl) in
          omega (arith, parts, own, held, held', a, b)
      | inr p ↦
          let few : holders n gs + holders n hs ≤ 1 = ground (arith, p, a, b) in
          omega (arith, parts, held, held', few)
    ]

pub apart_once :
    (gs hs : List CallTraceInstanceGroup) (l m n : ℕ)
    → (l == m) ≡ false
    → holders n gs ≤ 1
    → holders n hs ≤ 1
    → (0 < holders n gs → 0 < holders n hs → (n ≡ l) × (l ≡ m))
    → holders n (gs ++ hs) ≤ 1
apart_once gs hs l m n ne a b f =
    let parts = holders-append n gs hs in
    elim (Bool-cases (ltb 0 (holders n gs) && ltb 0 (holders n hs))) [
      | inl p ↦
          let (e, e') = f (ground (arith, p)) (ground (arith, p)) in absurd (ground (arith, ne, e'))
      | inr p ↦
          let few : holders n gs + holders n hs ≤ 1 = ground (arith, p, a, b) in
          omega (arith, parts, few)
    ]
