-- ===== src/Api/Client/SingleFlight.antt =====
-- The mutex of `requestTokenRefresh` (frontend/src/api/client.ts): callers that come while a refresh
-- is under way share its promise. Callers are numbers, and events come in any order.
use locketgoldhuydev.Prelude.{
  ℕ, suc, ◌+◌, ◌≡◌, refl, ap, ◌∙◌, Option, none, some, List, [], ◌∷◌, ◌++◌, map, arith, String,
  ◌==◌, if◌then◌else◌,
}

pub record Mutex : Type 0 where
  -- The callers that wait for the promise, the latest first, while there is one.
  pub promise : Option (List ℕ)
  pub network_calls : ℕ
  pub results : List (ℕ × Option String)

pub data Event : Type 0 where
  -- A call of `requestTokenRefresh`, and the end of the network call.
  ask : (caller : ℕ) → Event
  settled : (token : Option String) → Event

pub step : Mutex → Event → Mutex
step m (ask caller) = elim m.promise [
  | none ↦ record m { promise = some (caller ∷ []); network_calls = suc m.network_calls }
  | some waiting ↦ record m { promise = some (caller ∷ waiting) }
]
step m (settled token) = elim m.promise [
  | none ↦ m
  | some waiting ↦ record m { promise = none; results = map (λ c. (c, token)) waiting ++ m.results }
]

pub run : Mutex → List Event → Mutex
run m [] = m
run m (e ∷ es) = run (step m e) es

run-append : (m : Mutex) (xs ys : List Event) → run m (xs ++ ys) ≡ run (run m xs) ys
unfolding run
run-append m [] ys = refl
run-append m (x ∷ xs) ys = run-append (step m x) xs ys

-- The callers of a list, the last first, in front of those that wait.
abbrev pub join : List ℕ → List ℕ → List ℕ
join [] waiting = waiting
join (c ∷ cs) waiting = join cs (c ∷ waiting)

run_joining :
    (m : Mutex) (waiting cs : List ℕ)
    → m.promise ≡ some waiting
    → run m (map ask cs) ≡ record m { promise = some (join cs waiting) }
unfolding run step
run_joining m waiting [] h = ground arith
run_joining m waiting (c ∷ cs) h =
    rw (h, step) (run_joining (record m { promise = some (c ∷ waiting) }) (c ∷ waiting) cs refl)

-- If no refresh is under way, then however many callers ask before the answer, the network is
-- called once, and each of them gets the same token.
pub run_shared :
    (m : Mutex) (c : ℕ) (cs : List ℕ) (token : Option String)
    → m.promise ≡ none
    → run m (ask c ∷ (map ask cs ++ settled token ∷ [])) ≡ record {
      promise = none;
      network_calls = suc m.network_calls;
      results = map (λ k. (k, token)) (join cs (c ∷ [])) ++ m.results;
    }
unfolding run step
run_shared m c cs token h =
    rw (h, step)
      (run-append (record m { promise = some (c ∷ []); network_calls = suc m.network_calls })
          (map ask cs) (settled token ∷ [])
        ∙ ap (λ n. run n (settled token ∷ []))
            (run_joining (record m { promise = some (c ∷ []); network_calls = suc m.network_calls })
              (c ∷ []) cs refl))

-- How often a caller asks, waits and has been answered.
abbrev pub asks : ℕ → List Event → ℕ
asks c [] = 0
asks c (ask k ∷ es) = (if k == c then 1 else 0) + asks c es
asks c (settled token ∷ es) = asks c es

abbrev pub count : ℕ → List ℕ → ℕ
count c [] = 0
count c (k ∷ ks) = (if k == c then 1 else 0) + count c ks

abbrev pub answers : ℕ → List (ℕ × Option String) → ℕ
answers c [] = 0
answers c ((k, token) ∷ rs) = (if k == c then 1 else 0) + answers c rs

abbrev pub waits : ℕ → Option (List ℕ) → ℕ
waits c none = 0
waits c (some ks) = count c ks

answers-map :
    (c : ℕ) (token : Option String) (ks : List ℕ) (rs : List (ℕ × Option String))
    → answers c (map (λ k. (k, token)) ks ++ rs) ≡ count c ks + answers c rs
answers-map c token [] rs = omega arith
answers-map c token (k ∷ ks) rs = omega (arith, answers-map c token ks rs)

settled_conserves :
    (p : Option (List ℕ)) (n : ℕ) (rs : List (ℕ × Option String)) (token : Option String) (c : ℕ)
    → let m = step (record { promise = p; network_calls = n; results = rs }) (settled token) in
      waits c m.promise + answers c m.results ≡ waits c p + answers c rs
unfolding step
settled_conserves none n rs token c = refl
settled_conserves (some ks) n rs token c = omega (arith, answers-map c token ks rs)

step_conserves :
    (m : Mutex) (e : Event) (c : ℕ)
    → waits c (step m e).promise + answers c (step m e).results
      ≡ asks c (e ∷ []) + (waits c m.promise + answers c m.results)
unfolding step
step_conserves m (ask k) c = ground arith
step_conserves m (settled token) c =
    settled_conserves m.promise m.network_calls m.results token c ∙ omega arith

-- In every order of events each call is answered once or still waits: none is lost, and none is
-- answered twice.
pub run_conserves :
    (m : Mutex) (es : List Event) (c : ℕ)
    → waits c (run m es).promise + answers c (run m es).results
      ≡ asks c es + (waits c m.promise + answers c m.results)
unfolding run
run_conserves m [] c = omega arith
run_conserves m (ask k ∷ es) c =
    omega (arith, run_conserves (step m (ask k)) es c, step_conserves m (ask k) c)
run_conserves m (settled token ∷ es) c =
    omega (arith, run_conserves (step m (settled token)) es c, step_conserves m (settled token) c)
