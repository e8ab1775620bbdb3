-- ===== src/Transfers/Touch.antt =====
-- src/transfers/TransfersContainer.cpp: a change of one output, and the call that settles its key image.
use lira.Prelude.{
  ℕ, ◌≤◌, ◌≡◌, ◌≢◌, refl, arith, Bool, false, Bool-cases, ◌⊎◌, inl, inr, Option, none, some,
}
use lira.Transfers.{
  OutputType, invalid_output, key_output, multisignature_output, TransferIn, Container, is_key_type,
  Descriptor, of_key, of_multisignature, descriptor_of, same_descriptor, has_descriptor, count,
  of_descriptor, spent_of,
}
use lira.Transfers.Add.{touch}
use lira.Transfers.Counts.{Ends}
use lira.Transfers.Shown.{shown}
use lira.Transfers.Settled.{Settled, AllSettled, update_transfers_visibility-AllSettled}

-- All that the state of one key image depends on.
unfoldable pub Same : ℕ → Container → Container → Type 0
Same l c c' =
    (count (spent_of (of_key l)) c'.spent ≡ count (spent_of (of_key l)) c.spent)
    × (count (of_descriptor (of_key l)) c'.available ≡ count (of_descriptor (of_key l)) c.available)
    × (count (of_descriptor (of_key l)) c'.unconfirmed
        ≡ count (of_descriptor (of_key l)) c.unconfirmed)
    × (count (shown l) c'.available ≡ count (shown l) c.available)
    × (count (shown l) c'.unconfirmed ≡ count (shown l) c.unconfirmed)

pub Settled-Same : (l : ℕ) (c c' : Container) → Same l c c' → Settled l c → Settled l c'
unfolding Settled Same
Settled-Same l c c' (s, a, u, sa, su) settled = rw (s, a, u, sa, su) settled

-- A state with its flag.
abbrev pub Settles : Container × Bool → Type 0
Settles x = AllSettled (x.0)

-- Only the key image of `t` may be unsettled.
unfoldable pub Disturbed : TransferIn → Container → Type 0
Disturbed t c =
    ((l : ℕ) → has_descriptor (of_key l) t ≡ false → Settled l c)
    × ((l : ℕ) → count (spent_of (of_key l)) c.spent ≤ 1)

pub disturb :
    (t : TransferIn) (c c' : Container)
    → AllSettled c
    → ((l : ℕ) → has_descriptor (of_key l) t ≡ false → Same l c c')
    → ((l : ℕ) → count (spent_of (of_key l)) c'.spent ≤ count (spent_of (of_key l)) c.spent)
    → Disturbed t c'
unfolding Disturbed AllSettled Settled
disturb t c c' all same fewer =
    (λ l no. Settled-Same l c c' (same l no) (all l), λ l. omega (arith, fewer l, (all l).0))

of_kind :
    (kind : OutputType) (k a i l : ℕ)
    → (is_key_type kind ≡ false) ⊎ (l ≢ k)
    → (elim (elim kind as (λ _. Option Descriptor) [
      | invalid_output ↦ none
      | key_output ↦ some (of_key k)
      | multisignature_output ↦ some (of_multisignature a i)
    ]) [ none ↦ false | some e ↦ same_descriptor e (of_key l) ])
      ≡ false
unfolding same_descriptor
of_kind invalid_output k a i l h = refl
of_kind multisignature_output k a i l h = refl
of_kind key_output k a i l (inl h) = absurd (ground arith)
of_kind key_output k a i l (inr other) = ground (arith, other)

not_of_key :
    (t : TransferIn) (l : ℕ)
    → (is_key_type (t.kind) ≡ false) ⊎ (l ≢ t.key_image)
    → has_descriptor (of_key l) t ≡ false
unfolding has_descriptor descriptor_of
not_of_key t l h = of_kind (t.kind) (t.key_image) (t.amount) (t.global_output_index) l h

pub touch-AllSettled :
    (P : Container → Type 0) (t : TransferIn) (c : Container)
    → Disturbed t c
    → Ends P AllSettled (touch t c)
unfolding touch Disturbed Ends AllSettled
touch-AllSettled P t c (others, once) = elim (Bool-cases (is_key_type (t.kind))) [
  | inl h ↦ rw h (
      update_transfers_visibility-AllSettled P (t.key_image) c (once (t.key_image))
        (λ l other. others l (not_of_key t l (inr other))))
  | inr h ↦ rw h (λ l. others l (not_of_key t l (inl h)))
]
