-- ===== src/Requests/Grow.antt =====
-- `growHeader` of src/AmmServerlib/header_analysis/generic_header_tools.c, and what it does to a
-- request that awaits its body.
use ammar_server.Base.{
  some_eq, ℕ, ◌≤◌, ◌<◌, ◌≡◌, sym, ap, ◌∙◌, Bool, true, false, none, some, length, ltb, leb, ◌==◌,
  if◌then◌else◌, inl, inr, arith, Bool-cases,
}
use ammar_server.Requests.{Header, Settings, wannabe_header_size, reallocate, grow_header}
use ammar_server.Requests.Complete.{total_size, awaits}

reallocate_size :
    (header : Header) (size : ℕ) (ok : Bool) (header' : Header)
    → reallocate header size ok ≡ some (header', true)
    → (header.max_header_raw_size ≤ size) × (header'.max_header_raw_size ≡ size)
unfolding reallocate
reallocate_size header size false header' h = absurd (cc (ap (λ q. q.1) (some_eq h)))
reallocate_size header size true header' h =
    elim (Bool-cases (ltb size header.max_header_raw_size)) [
      | inl less ↦ let bad : none ≡ some (header', true) = rw less at h in absurd (cc bad)
      | inr enough ↦
          let same = ap (λ q. q.0.max_header_raw_size) (some_eq (rw enough at h)) in
          (ground arith, sym same)
    ]

limited : ℕ → ℕ → ℕ
limited limit wannabe = if ltb limit wannabe then limit else wannabe

limited_le : (limit wannabe : ℕ) → limited limit wannabe ≤ limit
unfolding limited
limited_le limit wannabe = ground arith

grown_reallocates :
    (settings : Settings) (header : Header) (ok : Bool) (header' : Header)
    → header.has_header_raw ≡ true
    → grow_header settings header ok ≡ some (header', true)
    → reallocate header
        (limited settings.max_post_transaction_size (wannabe_header_size settings header).0)
        ok
      ≡ some (header', true)
unfolding grow_header limited
grown_reallocates settings header ok header' there h = elim (Bool-cases header.failed) [
  | inl f ↦ absurd (cc (ap (λ q. q.1) (some_eq (rw f at h))))
  | inr f ↦ elim (Bool-cases (wannabe_header_size settings header).1) [
    | inr a ↦ absurd (cc (ap (λ q. q.1) (some_eq (rw (f, a) at h))))
    | inl a ↦
        elim (Bool-cases (ltb header.max_header_raw_size settings.max_post_transaction_size)) [
          | inr l ↦ absurd (cc (ap (λ q. q.1) (some_eq (rw (f, a, there, l) at h))))
          | inl l ↦
              let same : grow_header settings header ok
                  ≡ reallocate header
                      (limited settings.max_post_transaction_size
                        (wannabe_header_size settings header).0)
                      ok =
                simp (f, a, there, l) in
              sym same ∙ h
        ]
  ]
]

-- A buffer that is there never grows behind the limit of the configuration, and never shrinks: where
-- `growHeader` reports success without a write behind the buffer, the new size is at least the old
-- one and at most the limit.
pub grow_header-bounds :
    (settings : Settings) (header : Header) (ok : Bool) (header' : Header)
    → header.has_header_raw ≡ true
    → grow_header settings header ok ≡ some (header', true)
    → (header.max_header_raw_size ≤ header'.max_header_raw_size)
      × (header'.max_header_raw_size ≤ settings.max_post_transaction_size)
grow_header-bounds settings header ok header' there h =
    let size = limited settings.max_post_transaction_size (wannabe_header_size settings header).0 in
    let (old, new) =
      reallocate_size header size ok header'
        (grown_reallocates settings header ok header' there h) in
    (
      omega (arith, old, new),
      omega (
        arith,
        new,
        limited_le settings.max_post_transaction_size (wannabe_header_size settings header).0,
      ),
    )

-- A request that has not failed and has a buffer, that fills its buffer and awaits bytes of a body
-- without chunks, where its whole size is within the limit: when memory can be had, the buffer
-- grows, without a fault, to exactly the whole size.
pub grow_header-awaits :
    (settings : Settings) (header : Header)
    → header.failed ≡ false
    → header.has_header_raw ≡ true
    → header.max_header_raw_size ≤ length header.header_raw
    → length header.header_raw < total_size header
    → total_size header ≤ settings.max_post_transaction_size
    → grow_header settings (awaits header) true
      ≡ some (record (awaits header) { max_header_raw_size = total_size header }, true)
unfolding grow_header wannabe_header_size reallocate
grow_header-awaits settings header f there full short fits =
    let z : (total_size header == 0) ≡ false = ground arith in
    let a : leb (total_size header) settings.max_post_transaction_size ≡ true = ground arith in
    let l : ltb header.max_header_raw_size settings.max_post_transaction_size ≡ true =
      ground arith in
    let c : ltb settings.max_post_transaction_size (total_size header) ≡ false = ground arith in
    let s : ltb (total_size header) header.max_header_raw_size ≡ false = ground arith in
    rw (z, a, f, there, l, c, s)
