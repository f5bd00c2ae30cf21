-- ===== src/Client/Targets/Check.antt =====
-- What do_check_self refuses.
use fcopy.Base.{
  ◌≡◌, ◌↔◌, refl, sym, ap, ◌∙◌, Bytes, bytes_eq, bytes_eq_refl, bytes_eq_comm, bytes_eq→eq, ==→eq,
  ==-refl, List, [], ◌∷◌, some, none, true, false, All, arith, Bool-cases, inl, inr, subst,
}
use fcopy.Net.{RemoteTarget, same_address, Apart}
use fcopy.Client.Targets.{contains, avoids, no_duplicate, target_name, do_check_self, parse_target}
use fcopy.Client.Targets.Names.{IsTarget, parse_target-target_name}

-- Targets are at the same address exactly if their names agree.
same_address→eq : (t u : RemoteTarget) → same_address t u ≡ true → t ≡ u
same_address→eq t u h =
    let host = bytes_eq→eq t.host u.host (ground arith) in
    let port = ==→eq t.port u.port (ground arith) in cc

same_address→same_name :
    (t u : RemoteTarget) → same_address t u ≡ true → bytes_eq (target_name t) (target_name u) ≡ true
same_address→same_name t u h =
    subst (λ v. bytes_eq (target_name t) (target_name v) ≡ true) (same_address→eq t u h)
      (bytes_eq_refl (target_name t))

same_name→same_address :
    (t u : RemoteTarget)
    → IsTarget t
    → IsTarget u
    → bytes_eq (target_name t) (target_name u) ≡ true
    → same_address t u ≡ true
same_name→same_address t u h k e =
    let names : target_name t ≡ target_name u = bytes_eq→eq (target_name t) (target_name u) e in
    let both : some t ≡ some u =
      sym (parse_target-target_name t h) ∙ ap parse_target names ∙ parse_target-target_name u k in
    let same : t ≡ u = cc in
    subst (λ v. same_address t v ≡ true) same (ground (arith, bytes_eq_refl t.host, ==-refl t.port))

-- No name of the second list of targets is among the names of the first.
abbrev Fresh : List Bytes → List RemoteTarget → Type 0
Fresh names targets = All (λ t. contains (target_name t) names ≡ false) targets

Fresh-head :
    (name : Bytes) (names : List Bytes) (targets : List RemoteTarget)
    → Fresh (name ∷ names) targets
    → All (λ t. bytes_eq (target_name t) name ≡ false) targets × Fresh names targets
unfolding contains
Fresh-head name names [] h = (tt, tt)
Fresh-head name names (t ∷ targets) (h, hs) =
    let (heads, tails) = Fresh-head name names targets hs in
    ((ground arith, heads), (ground arith, tails))

Fresh-cons :
    (name : Bytes) (names : List Bytes) (targets : List RemoteTarget)
    → All (λ t. bytes_eq (target_name t) name ≡ false) targets
    → Fresh names targets
    → Fresh (name ∷ names) targets
unfolding contains
Fresh-cons name names [] h f = tt
Fresh-cons name names (t ∷ targets) (h, hs) (f, fs) =
    (ground arith, Fresh-cons name names targets hs fs)

apart_names :
    (t : RemoteTarget) (targets : List RemoteTarget)
    → All (λ u. bytes_eq (target_name u) (target_name t) ≡ false) targets
    → All (λ u. same_address t u ≡ false) targets
apart_names t [] h = tt
apart_names t (u ∷ targets) (h, hs) = (
  elim (Bool-cases (same_address t u)) [
    | inl same ↦
        absurd (cc (bytes_eq_comm (target_name u) (target_name t), same_address→same_name t u same))
    | inr other ↦ other
  ],
  apart_names t targets hs,
)

names_apart :
    (t : RemoteTarget) (targets : List RemoteTarget)
    → IsTarget t
    → All IsTarget targets
    → All (λ u. same_address t u ≡ false) targets
    → All (λ u. bytes_eq (target_name u) (target_name t) ≡ false) targets
names_apart t [] v vs h = tt
names_apart t (u ∷ targets) v (w, ws) (h, hs) = (
  elim (Bool-cases (bytes_eq (target_name t) (target_name u))) [
    | inl same ↦ absurd (cc (same_name→same_address t u v w same))
    | inr other ↦ bytes_eq_comm (target_name u) (target_name t) ∙ other
  ],
  names_apart t targets v ws hs,
)

no_duplicate-Apart :
    (names : List Bytes) (targets : List RemoteTarget)
    → no_duplicate names targets ≡ true
    → Apart targets × Fresh names targets
unfolding no_duplicate
no_duplicate-Apart names [] h = (tt, tt)
no_duplicate-Apart names (t ∷ targets) h = elim (Bool-cases (contains (target_name t) names)) [
  | inl known ↦ let wrong : false ≡ true = rw known at h in cc
  | inr new ↦
      let (apart, fresh) = no_duplicate-Apart (target_name t ∷ names) targets (rw new at h) in
      let (heads, tails) = Fresh-head (target_name t) names targets fresh in
      ((apart_names t targets heads, apart), (new, tails))
]

Apart-no_duplicate :
    (names : List Bytes) (targets : List RemoteTarget)
    → All IsTarget targets
    → Apart targets
    → Fresh names targets
    → no_duplicate names targets ≡ true
unfolding no_duplicate
Apart-no_duplicate names [] v apart fresh = refl
Apart-no_duplicate names (t ∷ targets) (v, vs) (apart, rest) (new, fresh) = rw new (
    Apart-no_duplicate (target_name t ∷ names) targets vs rest
      (Fresh-cons (target_name t) names targets (names_apart t targets v vs apart) fresh))

abbrev pub Elsewhere : List Bytes → List RemoteTarget → Type 0
Elsewhere addrs targets = All (λ t. contains t.host addrs ≡ false) targets

avoids-Elsewhere :
    (addrs : List Bytes) (targets : List RemoteTarget)
    → avoids addrs targets ≡ true
    → Elsewhere addrs targets
unfolding avoids
avoids-Elsewhere addrs [] h = tt
avoids-Elsewhere addrs (t ∷ targets) h = elim (Bool-cases (contains t.host addrs)) [
  | inl own ↦ let wrong : false ≡ true = rw own at h in cc
  | inr other ↦ (other, avoids-Elsewhere addrs targets (rw other at h))
]

Elsewhere-avoids :
    (addrs : List Bytes) (targets : List RemoteTarget)
    → Elsewhere addrs targets
    → avoids addrs targets ≡ true
unfolding avoids
Elsewhere-avoids addrs [] h = refl
Elsewhere-avoids addrs (t ∷ targets) (h, hs) = rw h (Elsewhere-avoids addrs targets hs)

none_known : (targets : List RemoteTarget) → Fresh [] targets
unfolding contains
none_known [] = tt
none_known (t ∷ targets) = (refl, none_known targets)

-- On targets as parse_target makes them, do_check_self accepts exactly those lists whose hosts are
-- no local address and in which no two targets have the same host and port.
pub do_check_self-Apart :
    (addrs : List Bytes) (targets : List RemoteTarget)
    → All IsTarget targets
    → (do_check_self (some addrs) targets ≡ true) ↔ (Elsewhere addrs targets × Apart targets)
unfolding do_check_self
do_check_self-Apart addrs targets v = (
  λ ok. elim (Bool-cases (avoids addrs targets)) [
    | inl out ↦
        (avoids-Elsewhere addrs targets out, (no_duplicate-Apart [] targets (rw out at ok)).0)
    | inr own ↦ let wrong : false ≡ true = rw own at ok in cc
  ],
  λ (out, apart).
      rw (Elsewhere-avoids addrs targets out)
        (Apart-no_duplicate [] targets v apart (none_known targets)),
)

-- Without the local addresses, every list is refused.
pub do_check_self-none : (targets : List RemoteTarget) → do_check_self none targets ≡ false
unfolding do_check_self
do_check_self-none targets = refl
