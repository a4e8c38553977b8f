-- ===== src/Retransmission/Expiry.antt =====
-- What the expiry of a bundle does to the queue: RetransmissionExtension.cpp.
use ibrdtn.Base.{
  ◌≡◌, inl, inr, refl, sym, ap, ◌∙◌, List, [], ◌∷◌, ◌++◌, length, if◌then◌else◌, Bool-cases,
}
use mathlib.Core.List.{append_assoc, append-nil}
use ibrdtn.BundleId.{BundleId, id_eq}
use ibrdtn.Clock.{Clock}
use ibrdtn.Retransmission.{
  RetransmissionData, Retransmission, bundle_expired, Raised, bundle_deleted, expire_rounds,
  on_expired, notify,
}

-- The retransmissions of other bundles than `id`, and the reports of those of it.
pub others : BundleId → List RetransmissionData → List RetransmissionData
others id [] = []
others id (d ∷ q) = let rest = others id q in if id_eq d.id id then rest else d ∷ rest

pub reports : BundleId → List RetransmissionData → List Raised
reports id [] = []
reports id (d ∷ q) =
    let rest = reports id q in
    if id_eq d.id id then bundle_deleted d.destination d.id ∷ rest else rest

-- The rounds over `a` leave what stands behind it at the front.
expire_rounds-append :
    (a b : List RetransmissionData) (id : BundleId)
    → expire_rounds (length a) (a ++ b) id ≡ (b ++ others id a, reports id a)
unfolding expire_rounds others reports
expire_rounds-append [] b id = simp append-nil refl
expire_rounds-append (d ∷ a) b id = elim (Bool-cases (id_eq d.id id)) [
  | inl e ↦ rw e (rw (expire_rounds-append a b id) refl)
  | inr e ↦ rw e (
      rw (append_assoc a b (d ∷ [])) (
        rw (expire_rounds-append a (b ++ (d ∷ [])) id)
          (rw (append_assoc b (d ∷ []) (others id a)) refl)))
]

-- When a bundle expires, the queue keeps the retransmissions of other bundles in their order, the
-- set stays as it is, and each retransmission of the bundle is reported once, in their order.
pub notify_expired :
    (c : Clock) (r : Retransmission) (id : BundleId)
    → notify c r (bundle_expired id)
      ≡ (record { queue = others id r.queue; set = r.set }, reports id r.queue)
unfolding notify on_expired
notify_expired c r id =
    rw
      (ap (λ q. expire_rounds (length r.queue) q id) (sym (append-nil r.queue))
        ∙ expire_rounds-append r.queue [] id)
      refl
