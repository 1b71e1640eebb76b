-- ===== src/Wizard/Answers.antt =====
-- Answers to lookups of frontend/src/pages/dashboard/ActivationWizard.tsx and the way to the payment.
use locketgoldhuydev.Prelude.{
  ◌≡◌, ◌≢◌, ◌≤◌, ◌⊎◌, refl, sym, ap, ◌∙◌, subst, inl, inr, true, false, none, some, arith, ==_iff,
  Bool-cases, Option-cases, if◌then◌else◌,
}
use locketgoldhuydev.Prelude.Pairs.{All-filter, All-map}
use locketgoldhuydev.Wizard.Types.{PlanItem, UserInfo, GoldCheck}
use locketgoldhuydev.Wizard.{Wizard, fulfillment_mode}
use locketgoldhuydev.Wizard.Lookup.{
  at_gold, Lookup, LunakeyResponse, UserInfoResponse, Reply, replied, null_reply, rejected,
  is_current, user_answered, on_provider, on_user, on_gold,
}
use locketgoldhuydev.Wizard.Events.{Page, Waits, settle, provider_ends, user_ends, gold_ends}
use locketgoldhuydev.Wizard.Frames.{
  Keeps, on_provider-Keeps, on_user-KeepsToken, on_gold-KeepsToken,
}
use locketgoldhuydev.Wizard.Ready.{MayPay, IsReady, found-All, settle-apart}

late-is_current : (l : Lookup) (w : Wizard) → l.seq ≢ w.lookup_seq → is_current l w ≡ false
late-is_current l w n = ground (arith, n)

Keeps-fulfillment_mode : (w w' : Wizard) → Keeps w w' → fulfillment_mode w' ≡ fulfillment_mode w
unfolding fulfillment_mode
Keeps-fulfillment_mode w w' k = rw (k.1, k.2) refl

-- An answer that keeps the selection, and does nothing at all where it is late.
settled-IsReady :
    (s : Page) (l : Lookup) (w : Wizard)
    → Waits l s.pending
    → Keeps s.wizard w
    → (is_current l s.wizard ≡ false → w ≡ s.wizard)
    → IsReady s
    → IsReady (record { wizard = w; pending = settle l s.pending })
settled-IsReady s l w waits k unchanged v = record {
  recent =
      All-map _ _ (settle l s.pending) (λ j b. omega (arith, k.4, b))
        (All-filter _ _ s.pending v.recent);
  late = elim (Bool-cases (is_current l s.wizard)) [
    | inl current ↦ λ idle.
        All-map _ _ (settle l s.pending)
          (λ j b. omega (arith, k.4, b, (==_iff s.wizard.lookup_seq l.seq).0 current))
          (settle-apart l s.pending)
    | inr late ↦ λ idle.
        All-map _ _ (settle l s.pending) (λ j b. omega (arith, k.4, b))
          (All-filter _ _ s.pending
            (v.late (ap (λ x. x.is_verifying_user) (sym (unchanged late)) ∙ idle)))
  ];
  ready = λ (at, mode).
      let m = v.ready (sym k.0 ∙ at, sym (Keeps-fulfillment_mode s.wizard w k) ∙ mode) in
      let apart = found-All (λ j. j.seq ≢ s.wizard.lookup_seq) l s.pending waits (v.late m.idle) in
      subst MayPay (sym (unchanged (late-is_current l s.wizard apart))) m;
}

pub provider_ends-IsReady :
    (p : PlanItem) (l : Lookup) (a : Reply LunakeyResponse) (s : Page)
    → Waits l s.pending
    → IsReady s
    → IsReady (provider_ends p l a s)
unfolding on_provider
provider_ends-IsReady p l a s waits =
    settled-IsReady s l (on_provider p l a s.wizard) waits (on_provider-Keeps p l a s.wizard)
      (λ late. rw late refl)

pub gold_ends-IsReady :
    (info : UserInfo) (l : Lookup) (a : Reply GoldCheck) (s : Page)
    → Waits l s.pending
    → IsReady s
    → IsReady (gold_ends info l a s)
unfolding on_gold
gold_ends-IsReady info l a s waits =
    settled-IsReady s l (on_gold info l a s.wizard) waits (on_gold-KeepsToken info l a s.wizard).0
      (λ late. rw late refl)

-- User data end the lookup, or leave the page as it is and the lookup under way.
on_user-cases :
    (l : Lookup) (a : Reply UserInfoResponse) (w : Wizard)
    → ((on_user l a w).1 ≡ none)
      ⊎ ((info : UserInfo) × (is_current l w ≡ true)
          × ((on_user l a w).0 ≡ w)
          × ((on_user l a w).1 ≡ some (record l { stage = at_gold info })))
unfolding on_user user_answered
on_user-cases l a w = elim (Bool-cases (is_current l w)) [
  | inr late ↦ inl (rw late refl)
  | inl current ↦ rw current (answered a)
]
  where
    answered :
        (a : Reply UserInfoResponse)
        → ((user_answered l a w).1 ≡ none)
          ⊎ ((info : UserInfo) × (true ≡ true)
              × ((user_answered l a w).0 ≡ w)
              × ((user_answered l a w).1 ≡ some (record l { stage = at_gold info })))
    answered null_reply = inl refl
    answered (rejected m) = inl refl
    answered (replied res) = elim (Option-cases (if res.success then res.user_data else none)) [
      | inl missing ↦ inl (rw (missing, user_answered) refl)
      | inr (info, e) ↦ inr (info, refl, rw (e, user_answered) refl, rw (e, user_answered) refl)
    ]

pub user_ends-IsReady :
    (l : Lookup) (a : Reply UserInfoResponse) (s : Page)
    → Waits l s.pending
    → IsReady s
    → IsReady (user_ends l a s)
user_ends-IsReady l a s waits v =
    let w = (on_user l a s.wizard).0 in
    let k = (on_user-KeepsToken l a s.wizard).0 in
    let t = settled-IsReady s l w waits k (λ late. unfold on_user in rw late refl) v in
    elim (on_user-cases l a s.wizard) [
      | inl ended ↦ rw ended t
      | inr (info, current, same, next) ↦ rw next (record {
        recent = (
          omega
              (arith, k.4, found-All (λ j. j.seq ≤ s.wizard.lookup_seq) l s.pending waits v.recent),
          t.recent,
        );
        late = λ idle. (
          omega (
            arith,
            k.4,
            found-All (λ j. j.seq ≢ s.wizard.lookup_seq) l s.pending waits
                (v.late (ap (λ x. x.is_verifying_user) (sym same) ∙ idle)),
          ),
          t.late idle,
        );
        ready = t.ready;
      })
    ]
