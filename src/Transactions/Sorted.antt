-- ===== src/Transactions/Sorted.antt =====
-- Where a round of the task puts the transactions that it checked.
use Prim.Native.String.{String}
use mathlib.Core.List.{Perm, perm_middle}
use mathlib.Core.List.Perm
use go_notification.Prelude.{
  ◌≡◌, refl, sym, ap₂, subst, ◌∙◌, ◌⊎◌, inl, inr, true, false, List, [], ◌∷◌, ◌++◌, map, append-nil,
  append_assoc, Option, none, some, ℤ, pos, Duration, Option-cases, arith,
}
use go_notification.Domain.Tx.{
  TxNotification, TxNotificationStatus, BusinessConfig, prepare, fail, cancel, commit,
  other_tx_status,
}
use go_notification.Transactions.Check.{TaskServices, one_back_check}
use go_notification.Transactions.Loop.{Buckets, no_buckets, classify_as, classify, check_all}
use go_notification.Transactions.Settled.{Outcome, Same, one_back_check-Outcome, is_final}

abbrev pub AllOf {ℓ κ} : {A : Type ℓ} → (A → Type κ) → List A → Type κ
AllOf P [] = Unit
AllOf P (x ∷ xs) = P x × AllOf P xs

AllOf-append {ℓ κ} :
    {A : Type ℓ} (P : A → Type κ) (xs : List A) (x : A)
    → AllOf P xs
    → P x
    → AllOf P (xs ++ (x ∷ []))
AllOf-append P [] x all h = (h, tt)
AllOf-append P (y ∷ xs) x (hy, all) h = (hy, AllOf-append P xs x all h)

abbrev pub Open : TxNotification → Type 0
Open t = t.status ≡ prepare

-- cancelled or failed, with no check to come
abbrev pub Ended : TxNotification → Type 0
Ended t = ((t.status ≡ cancel) ⊎ (t.status ≡ fail)) × (t.next_check_time ≡ pos 0)

abbrev pub Committed : TxNotification → Type 0
Committed t = (t.status ≡ commit) × (t.next_check_time ≡ pos 0)

-- what of a transaction no check changes: its number, its business and its key
abbrev pub identity : TxNotification → ℤ × (ℤ × String)
identity t = (t.tx_id, (t.biz_id, t.key))

abbrev pub identities : List TxNotification → List (ℤ × (ℤ × String))
identities = map identity

-- The three lists together hold the transactions identified by `ids`, each as often as `ids` does, and
-- each list those of its status; no status was illegal.
abbrev pub Sorted : List (ℤ × (ℤ × String)) → Buckets → Type 0
Sorted ids b =
    Perm (identities (b.retried ++ (b.failed_txns ++ b.committed))) ids
    × (b.illegal ≡ false)
    × AllOf Open b.retried
    × AllOf Ended b.failed_txns
    × AllOf Committed b.committed

-- one more at the end of a part is one more in front, up to order
append-Perm {ℓ} :
    {A : Type ℓ} (xs ys : List A) (x : A) → Perm ((xs ++ (x ∷ [])) ++ ys) (x ∷ (xs ++ ys))
append-Perm xs ys x =
    subst (λ l. Perm l (x ∷ (xs ++ ys))) (sym (append_assoc xs (x ∷ []) ys)) (perm_middle xs ys)

last-Perm {ℓ} : {A : Type ℓ} (xs : List A) (x : A) → Perm (xs ++ (x ∷ [])) (x ∷ xs)
last-Perm xs x = subst (λ l. Perm (xs ++ (x ∷ [])) (x ∷ l)) (append-nil xs) (perm_middle xs [])

identity-Same : (t t' : TxNotification) → Same t t' → identity t' ≡ identity t
identity-Same t t' (number, business, key') =
    ap₂ (λ a b. (a, b)) number (ap₂ (λ a b. (a, b)) business key')

no_check_to_come :
    (t : TxNotification) (st : TxNotificationStatus)
    → Outcome t
    → t.status ≡ st
    → is_final st ≡ true
    → t.next_check_time ≡ pos 0
no_check_to_come t st (inr (_, never)) same final' = never
no_check_to_come t st (inl opened) same final' =
    absurd (ground (arith, subst (λ x. is_final x ≡ true) (sym same ∙ opened) final'))

illegal-Outcome : (t : TxNotification) (x : String) → Outcome t → t.status ≡ other_tx_status x → ⊥
illegal-Outcome t x (inl opened) same = ground (arith, sym same ∙ opened)
illegal-Outcome t x (inr (final', _)) same =
    ground (arith, subst (λ y. is_final y ≡ true) same final')

one_more-Perm :
    (l l' : List TxNotification) (t t' : TxNotification) (ids : List (ℤ × (ℤ × String)))
    → Same t t'
    → Perm l' (t' ∷ l)
    → Perm (identities l) ids
    → Perm (identities l') (identity t ∷ ids)
one_more-Perm l l' t t' ids same more held =
    Perm.trans (Perm.map identity more) (Perm.cons' (identity-Same t t' same) held)

classify-Sorted :
    (ids : List (ℤ × (ℤ × String))) (t t' : TxNotification) (b : Buckets)
    → Sorted ids b
    → Outcome t'
    → Same t t'
    → Sorted (identity t ∷ ids) (classify t' b)
unfolding classify classify_as
classify-Sorted ids t t' b (held, legal, opened, ended, committed) outcome same = go t'.status refl
  where
    more :
        (l' : List TxNotification)
        → Perm l' (t' ∷ (b.retried ++ (b.failed_txns ++ b.committed)))
        → Perm (identities l') (identity t ∷ ids)
    more l' p = one_more-Perm (b.retried ++ (b.failed_txns ++ b.committed)) l' t t' ids same p held

    to_middle :
        (l' : List TxNotification)
        → Perm l' (t' ∷ (b.failed_txns ++ b.committed))
        → Perm (b.retried ++ l') (t' ∷ (b.retried ++ (b.failed_txns ++ b.committed)))
    to_middle l' p = Perm.trans (Perm.append_left b.retried p) (perm_middle b.retried _)

    go :
        (st : TxNotificationStatus)
        → t'.status ≡ st
        → Sorted (identity t ∷ ids) (classify_as st t' b)
    go prepare h = (
      more _ (append-Perm b.retried _ t'),
      legal,
      AllOf-append Open b.retried t' opened h,
      ended,
      committed,
    )
    go commit h = (
      more _ (
          to_middle _ (
            Perm.trans (Perm.append_left b.failed_txns (last-Perm b.committed t'))
              (perm_middle b.failed_txns b.committed))),
      legal,
      opened,
      ended,
      AllOf-append Committed b.committed t' committed
          (h, no_check_to_come t' commit outcome h refl),
    )
    go cancel h = (
      more _ (to_middle _ (append-Perm b.failed_txns b.committed t')),
      legal,
      opened,
      AllOf-append Ended b.failed_txns t' ended (inl h, no_check_to_come t' cancel outcome h refl),
      committed,
    )
    go fail h = (
      more _ (to_middle _ (append-Perm b.failed_txns b.committed t')),
      legal,
      opened,
      AllOf-append Ended b.failed_txns t' ended (inr h, no_check_to_come t' fail outcome h refl),
      committed,
    )
    go (other_tx_status x) h = absurd (illegal-Outcome t' x outcome h)

Sorted-Perm :
    (ids ids' : List (ℤ × (ℤ × String))) (b : Buckets)
    → Perm ids ids'
    → Sorted ids b
    → Sorted ids' b
Sorted-Perm ids ids' b p (held, legal, opened, ended, committed) =
    (Perm.trans held p, legal, opened, ended, committed)

abbrev SortedIfAny : List (ℤ × (ℤ × String)) → Option Buckets → Type 0
SortedIfAny ids none = Unit
SortedIfAny ids (some b) = Sorted ids b

SortedIfAny-Perm :
    (ids ids' : List (ℤ × (ℤ × String))) (o : Option Buckets)
    → Perm ids ids'
    → SortedIfAny ids o
    → SortedIfAny ids' o
SortedIfAny-Perm ids ids' none p sorted = tt
SortedIfAny-Perm ids ids' (some b) p sorted = Sorted-Perm ids ids' b p sorted

module _ {ℓ} {S : Type ℓ} (overflow : ℤ → Duration) (services : TaskServices S) where
  check_all-SortedIfAny :
      (configs : List (ℤ × BusinessConfig)) (ts : List TxNotification)
      (ids : List (ℤ × (ℤ × String))) (b : Buckets) (s : S)
      → AllOf Open ts
      → Sorted ids b
      → SortedIfAny (identities ts ++ ids) (check_all overflow services configs ts b s).0
  unfolding check_all
  check_all-SortedIfAny configs [] ids b s all sorted = sorted
  check_all-SortedIfAny configs (t ∷ ts) ids b s (opened, all) sorted =
      elim (Option-cases (one_back_check overflow services configs t s).0) [
        | inl panic ↦ rw (panic, check_all) tt
        | inr (t', h) ↦
            let (outcome, same) =
              one_back_check-Outcome overflow services configs t t' s opened h in
            rw (h, check_all)
              (SortedIfAny-Perm _ _ _ (perm_middle (identities ts) ids) (
                check_all-SortedIfAny configs ts (identity t ∷ ids) (classify t' b) _ all
                  (classify-Sorted ids t t' b sorted outcome same)))
      ]

  -- A round over open transactions, in whatever order they are checked and whatever the business
  -- answers, if none of the checks panics, puts each into exactly one list, by its number, business and
  -- key: those that stay open, those that are cancelled or failed and those that are committed; it
  -- meets no illegal status, and what is settled has no check to come.
  pub check_all-Sorted :
      (configs : List (ℤ × BusinessConfig)) (ts : List TxNotification) (b : Buckets) (s : S)
      → AllOf Open ts
      → (check_all overflow services configs ts no_buckets s).0 ≡ some b
      → Sorted (identities ts) b
  check_all-Sorted configs ts b s all h =
      subst (λ ids. Sorted ids b) (append-nil (identities ts))
        (subst (SortedIfAny (identities ts ++ [])) h
          (check_all-SortedIfAny configs ts [] no_buckets s all (Perm.nil, refl, tt, tt, tt)))
