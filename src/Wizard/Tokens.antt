-- ===== src/Wizard/Tokens.antt =====
-- The confirmation token of frontend/src/pages/dashboard/ActivationWizard.tsx through every step.
use locketgoldhuydev.Prelude.{
  ℕ, suc, ◌≡◌, refl, sym, inl, inr, Option, none, some, List, [], ◌∷◌, arith, All, Text, trim,
  Bool-cases, Option-cases, if◌then◌else◌,
}
use locketgoldhuydev.Prelude.Pairs.{All-filter}
use locketgoldhuydev.Queue.{DevicePlatform}
use locketgoldhuydev.Wizard.Types.{PlanItem, Support, all, only_ios, only_android}
use locketgoldhuydev.Wizard.{
  Wizard, payment, is_lunakey, enter, supports, handle_select_plan, handle_select_platform,
  handle_reset, go_back,
}
use locketgoldhuydev.Wizard.Lookup.{
  Lookup, LunakeyResponse, UserInfoResponse, Reply, replied, null_reply, rejected, find_stage,
  handle_verify_username, is_current, user_answered, on_provider, on_user, on_gold, type_username,
}
use locketgoldhuydev.Wizard.Contact.{Url, handle_continue_contact}
use locketgoldhuydev.Wizard.Events.{
  Page, settle, add, begin, Step, selects_plan, selects_platform, types_username, verifies,
  proceeds, types_contact, continues_contact, goes_back, resets, dismisses_block, provider_answers,
  user_answers, gold_answers, Steps, stays, then_step,
}
use locketgoldhuydev.Wizard.Frames.{on_provider-Keeps, on_user-KeepsToken, on_gold-KeepsToken}
use locketgoldhuydev.Wizard.Confirmed.{
  Bound, IsFor, outdated-Bound, kept-Bound, found-Bound, kept-Confirmed, none-Confirmed,
  on_provider-Confirmed, IsConfirmed,
}

-- The stage of a new lookup fits the plan that is selected.
find_stage-IsFor : (p : Option PlanItem) → IsFor (find_stage p) p
find_stage-IsFor none = tt
find_stage-IsFor (some p) = elim (Bool-cases (is_lunakey p.activation_provider)) [
  | inl lunakey ↦ rw lunakey refl
  | inr legacy ↦ rw legacy tt
]

enter-fields :
    (p : PlanItem) (support : Support) (w : Wizard)
    → ((enter p support w).lookup_seq ≡ w.lookup_seq)
      × ((enter p support w).lunakey_token ≡ w.lunakey_token)
enter-fields p all w = (refl, refl)
enter-fields p only_ios w = (refl, refl)
enter-fields p only_android w = (refl, refl)

-- A lookup that finds the user stays bound to the page, for its gold check.
on_user-Bound :
    (l : Lookup) (a : Reply UserInfoResponse) (w : Wizard) (ks : List Lookup)
    → Bound w l
    → All (Bound w) ks
    → All (Bound w) (add (on_user l a w).1 ks)
unfolding on_user user_answered
on_user-Bound l a w ks b h = elim (Bool-cases (is_current l w)) [
  | inr late ↦ rw late h
  | inl current ↦ rw current (answered a)
]
  where
    answered : (a : Reply UserInfoResponse) → All (Bound w) (add (user_answered l a w).1 ks)
    answered null_reply = h
    answered (rejected m) = h
    answered (replied res) = elim (Option-cases (if res.success then res.user_data else none)) [
      | inl missing ↦ rw (missing, user_answered) h
      | inr (info, e) ↦ rw (e, user_answered) ((b.0, λ same. ((b.1 same).0, tt)), h)
    ]

module _ (Said : PlanItem → Text → Reply LunakeyResponse → Type 0) where
  changed-IsConfirmed :
      (s : Page) (w : Wizard)
      → w.selected_plan ≡ s.wizard.selected_plan
      → w.username_input ≡ s.wizard.username_input
      → w.lookup_seq ≡ s.wizard.lookup_seq
      → w.lunakey_token ≡ s.wizard.lunakey_token
      → IsConfirmed Said s
      → IsConfirmed Said (record s { wizard = w })
  changed-IsConfirmed s w e f g h v = record {
    bound = kept-Bound s.wizard w s.pending e f g v.bound;
    confirmed = kept-Confirmed Said s.wizard w e f h v.confirmed;
  }

  dropped-IsConfirmed :
      (s : Page) (w : Wizard)
      → w.lookup_seq ≡ suc s.wizard.lookup_seq
      → w.lunakey_token ≡ none
      → IsConfirmed Said s
      → IsConfirmed Said (record s { wizard = w })
  dropped-IsConfirmed s w g h v = record {
    bound = outdated-Bound s.wizard w s.pending g v.bound;
    confirmed = none-Confirmed Said w h;
  }

  handle_select_platform-IsConfirmed :
      (device : DevicePlatform) (s : Page)
      → IsConfirmed Said s
      → IsConfirmed Said (record s { wizard = handle_select_platform device s.wizard })
  unfolding handle_select_platform
  handle_select_platform-IsConfirmed device s v = elim (Option-cases s.wizard.selected_plan) [
    | inl nothing ↦
        dropped-IsConfirmed s (handle_select_platform device s.wizard)
          (rw (nothing, handle_select_platform) refl) (rw (nothing, handle_select_platform) refl) v
    | inr (p, e) ↦ elim (Bool-cases (supports p.supported_platforms device)) [
      | inl fits ↦
          dropped-IsConfirmed s (handle_select_platform device s.wizard)
            (rw (e, handle_select_platform, fits) refl) (rw (e, handle_select_platform, fits) refl)
            v
      | inr refused ↦ record {
        bound =
            outdated-Bound s.wizard (handle_select_platform device s.wizard) s.pending
              (rw (e, handle_select_platform, refused) refl) v.bound;
        confirmed =
            kept-Confirmed Said s.wizard (handle_select_platform device s.wizard)
              (rw (e, handle_select_platform, refused) e)
              (rw (e, handle_select_platform, refused) refl)
              (rw (e, handle_select_platform, refused) refl) v.confirmed;
      }
    ]
  ]

  begin-IsConfirmed : (s : Page) → IsConfirmed Said s → IsConfirmed Said (begin s)
  unfolding handle_verify_username
  begin-IsConfirmed s v =
      elim (trim s.wizard.username_input)
          as (λ raw. (trim s.wizard.username_input ≡ raw) → IsConfirmed Said (begin s)) [
            | [] ↦ λ e.
                rw (e, handle_verify_username) (record { bound = v.bound; confirmed = v.confirmed })
            | c ∷ raw ↦ λ e.
                rw (e, handle_verify_username)
                  (record {
                    bound = (
                      (omega arith, λ same. (sym e, find_stage-IsFor s.wizard.selected_plan)),
                      outdated-Bound s.wizard
                          (record (s.wizard) { lookup_seq = suc s.wizard.lookup_seq }) s.pending
                          refl v.bound,
                    );
                    confirmed = v.confirmed;
                  })
          ]
        refl

  module _ (parse_url : Text → Option Url) (lower_other : ℕ → Text) where
    handle_continue_contact-IsConfirmed :
        (s : Page)
        → IsConfirmed Said s
        → IsConfirmed Said
            (record s { wizard = handle_continue_contact parse_url lower_other s.wizard })
    handle_continue_contact-IsConfirmed s v =
        changed-IsConfirmed s (handle_continue_contact parse_url lower_other s.wizard)
          (unfold handle_continue_contact in ground arith)
          (unfold handle_continue_contact in ground arith)
          (unfold handle_continue_contact in ground arith)
          (unfold handle_continue_contact in ground arith) v

    Step-IsConfirmed :
        {s t : Page} → Step parse_url lower_other Said s t → IsConfirmed Said s → IsConfirmed Said t
    Step-IsConfirmed {s} (selects_plan p at) v =
        dropped-IsConfirmed s (handle_select_plan p s.wizard)
          (unfold handle_select_plan in (enter-fields p p.supported_platforms _).0)
          (unfold handle_select_plan in (enter-fields p p.supported_platforms _).1) v
    Step-IsConfirmed {s} (selects_platform device at) v =
        handle_select_platform-IsConfirmed device s v
    Step-IsConfirmed {s} (types_username value at idle) v =
        dropped-IsConfirmed s (type_username value s.wizard) (unfold type_username in refl)
          (unfold type_username in refl) v
    Step-IsConfirmed {s} (verifies at idle) v = begin-IsConfirmed s v
    Step-IsConfirmed {s} (proceeds at found idle allowed) v =
        changed-IsConfirmed s (record (s.wizard) { current_step = payment }) refl refl refl refl v
    Step-IsConfirmed {s} (types_contact zalo facebook at) v = record {
      bound = v.bound;
      confirmed = v.confirmed;
    }
    Step-IsConfirmed {s} (continues_contact at) v = handle_continue_contact-IsConfirmed s v
    Step-IsConfirmed {s} (goes_back started going) v =
        changed-IsConfirmed s (go_back s.wizard) (unfold go_back in refl) (unfold go_back in refl)
          (unfold go_back in refl) (unfold go_back in refl) v
    Step-IsConfirmed {s} resets v =
        dropped-IsConfirmed s (handle_reset s.wizard) (unfold handle_reset in refl)
          (unfold handle_reset in refl) v
    Step-IsConfirmed {s} dismisses_block v = record { bound = v.bound; confirmed = v.confirmed }
    Step-IsConfirmed {s} (provider_answers p l a waits stage said) v =
        let k = on_provider-Keeps p l a s.wizard in
        record {
          bound =
              kept-Bound s.wizard (on_provider p l a s.wizard) (settle l s.pending) k.1 k.3 k.4
                (All-filter _ _ s.pending v.bound);
          confirmed =
              on_provider-Confirmed Said p l a s.wizard stage said
                (found-Bound s.wizard l s.pending waits v.bound) v.confirmed;
        }
    Step-IsConfirmed {s} (user_answers l a waits stage) v =
        let k = on_user-KeepsToken l a s.wizard in
        record {
          bound =
              kept-Bound s.wizard (on_user l a s.wizard).0
                (add (on_user l a s.wizard).1 (settle l s.pending)) k.0.1 k.0.3 k.0.4
                (on_user-Bound l a s.wizard (settle l s.pending)
                  (found-Bound s.wizard l s.pending waits v.bound)
                  (All-filter _ _ s.pending v.bound));
          confirmed =
              kept-Confirmed Said s.wizard (on_user l a s.wizard).0 k.0.1 k.0.3 k.1 v.confirmed;
        }
    Step-IsConfirmed {s} (gold_answers info l a waits stage) v =
        let k = on_gold-KeepsToken info l a s.wizard in
        record {
          bound =
              kept-Bound s.wizard (on_gold info l a s.wizard) (settle l s.pending) k.0.1 k.0.3 k.0.4
                (All-filter _ _ s.pending v.bound);
          confirmed =
              kept-Confirmed Said s.wizard (on_gold info l a s.wizard) k.0.1 k.0.3 k.1 v.confirmed;
        }

    -- From a page where this holds, it holds after every sequence of clicks and answers before an
    -- order is placed, also where lookups are answered late or out of order: a token on the page is
    -- one that the provider has given for the plan and the name that the page shows now, with a
    -- profile that may buy the plan; and a lookup with the latest number asks for what the page
    -- shows.
    pub Steps-IsConfirmed :
        {s t : Page}
        → Steps parse_url lower_other Said s t
        → IsConfirmed Said s
        → IsConfirmed Said t
    Steps-IsConfirmed stays v = v
    Steps-IsConfirmed (then_step steps step) v = Step-IsConfirmed step (Steps-IsConfirmed steps v)
