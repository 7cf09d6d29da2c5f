-- ===== src/Plugin/Approvals/Once.antt =====
-- An approval is used once, and a decision is accepted only for the request that it binds.
use openclaw_ecc_orchestrato.Prelude.{
  if◌then◌else◌, Bool-cases, or_else, if-elim, All, str_eq, ℕ, String, ◌≡◌, refl, sym, ap, ◌∙◌,
  subst, ◌≢◌, inl, inr, Bool, true, false, not, ◌&&◌, Option, none, some, List, [], ◌∷◌, ◌++◌,
  arith, eq_iff,
}
use openclaw_ecc_orchestrato.Prelude.Dict.{Dict, get, put, get-put, get-put_self, get-put_ne}
use openclaw_ecc_orchestrato.Plugin.Approvals.{
  Value, null, other, text, consumed, is_pending, Bound, Request, Broker, Decision, Checked, all_ok,
  expire_one, expire_all, find_request, request_checks, decision_checks,
}
use openclaw_ecc_orchestrato.Plugin.Approvals.Brokering.{
  Answer, request_errors, new_request, request, expire, text_of, settle_found, settle, resolve,
  Binding, usable_found, usable, spend_found, spend, consume,
}

-- The operations that write, in any order.
pub data Op : Type 0 where
  ask : (now : ℕ) (id : String) (ttl : ℕ) (dry_run : Bool) (b : Bound) → Op
  decide : (now : ℕ) (d : Decision) → Op
  use_up : (now : ℕ) (v : Value) (b : Binding) → Op

unfoldable pub step : Op → Broker → Broker
unfolding request resolve consume
step (ask now id ttl dry_run b) st = (request now id ttl dry_run b st).1
step (decide now d) st = (resolve now d st).1
step (use_up now v b) st = (consume now v b st).1

unfoldable pub steps : List Op → Broker → Broker
unfolding step
steps [] st = st
steps (op ∷ ops) st = steps ops (step op st)

-- The operation makes no new request of this id.
abbrev pub Avoids : String → Op → Type 0
Avoids id (ask now new_id ttl dry_run b) = new_id ≢ id
Avoids id _ = Unit

-- The request is there, and consumed.
abbrev IsConsumed : String → Broker → Type 0
IsConsumed id st = (r : Request) × (get id st.requests ≡ some r) × (r.status ≡ consumed)

pub get-expire_all :
    (now : ℕ) (id : String) (m : Dict Request) (r : Request)
    → get id m ≡ some r
    → get id (expire_all now m) ≡ some (expire_one now r)
unfolding get expire_all
get-expire_all now id [] r h = absurd (ground (arith, h))
get-expire_all now id ((k, q) ∷ m) r h = ground (arith, h, get-expire_all now id m r)

expire_one-consumed : (now : ℕ) (r : Request) → r.status ≡ consumed → expire_one now r ≡ r
unfolding expire_one
expire_one-consumed now r h = ground (arith, h)

expire-IsConsumed :
    (now : ℕ) (id : String) (st : Broker) → IsConsumed id st → IsConsumed id (expire now st)
unfolding expire
expire-IsConsumed now id st (r, there, done) =
    (r, get-expire_all now id st.requests r there ∙ ap some (expire_one-consumed now r done), done)

-- A write of another key leaves the request.
put-IsConsumed :
    (id k : String) (q : Request) (st : Broker)
    → str_eq k id ≡ false
    → IsConsumed id st
    → IsConsumed id (record st { requests = put k q st.requests })
put-IsConsumed id k q st differs (r, there, done) =
    (r, get-put_ne k id q st.requests differs ∙ there, done)

request-store :
    (now : ℕ) (id : String) (ttl : ℕ) (dry_run : Bool) (b : Bound) (st : Broker)
    → (request now id ttl dry_run b st).1 ≡ (
        if all_ok (request_errors b) && not dry_run
        then record st { requests = put id (new_request now ttl b) st.requests }
        else st)
unfolding request
request-store now id ttl dry_run b st = ground arith

request-IsConsumed :
    (now : ℕ) (new_id : String) (ttl : ℕ) (dry_run : Bool) (b : Bound) (id : String) (st : Broker)
    → new_id ≢ id
    → IsConsumed id st
    → IsConsumed id (request now new_id ttl dry_run b st).1
request-IsConsumed now new_id ttl dry_run b id st differs h =
    let made : Broker = record st { requests = put new_id (new_request now ttl b) st.requests } in
    rw (request-store now new_id ttl dry_run b st) (
      if-elim (IsConsumed id) (all_ok (request_errors b) && not dry_run) made st
        (λ _.
          put-IsConsumed id new_id (new_request now ttl b) st
            (ground (arith, differs, eq_iff new_id id)) h)
        (λ _. h))

pub all_ok-front : (cs ds : List Checked) → all_ok (cs ++ ds) ≡ true → all_ok cs ≡ true
all_ok-front [] ds h = refl
all_ok-front (c ∷ cs) ds h = ground (arith, h, all_ok-front cs ds)

find_request-get :
    (v : Value) (st : Broker) (q : Request)
    → find_request v st ≡ some q
    → get (or_else (text_of v) "") st.requests ≡ some q
unfolding find_request
find_request-get (text k) st q h = h
find_request-get null st q h = absurd (ground (arith, h))
find_request-get other st q h = absurd (ground (arith, h))

pub request_checks-pending :
    (now : ℕ) (d : Decision) (q : Request)
    → all_ok (request_checks now d (some q)) ≡ true
    → is_pending q.status ≡ true
unfolding request_checks
request_checks-pending now d q h = ground (arith, h)

some-injective : {A : Type 0} {a b : A} → some a ≡ some b → a ≡ b
some-injective h = cc

not_both : (r q : Request) → r ≡ q → r.status ≡ consumed → ¬ (is_pending q.status ≡ true)
not_both r q same done waits =
    ground (arith, waits, ap is_pending done, ap (λ (x : Request). is_pending x.status) same)

settle_found-IsConsumed :
    (now : ℕ) (d : Decision) (o : Option Request) (id : String) (st : Broker)
    → find_request d.request_id st ≡ o
    → all_ok (request_checks now d o) ≡ true
    → IsConsumed id st
    → IsConsumed id (settle_found now d o st)
unfolding settle_found
settle_found-IsConsumed now d none id st found ok h = h
settle_found-IsConsumed now d (some q) id st found ok (r, there, done) =
    let k = or_else (text_of d.request_id) "" in
    elim (Bool-cases (str_eq k id)) [
      | inl same ↦
          let at : get id st.requests ≡ some q =
            subst (λ j. get j st.requests ≡ some q) ((eq_iff k id).0 same)
              (find_request-get d.request_id st q found) in
          absurd (
            not_both r q (some-injective (sym there ∙ at)) done (request_checks-pending now d q ok))
      | inr differs ↦ put-IsConsumed id k _ st differs (r, there, done)
    ]

settle-IsConsumed :
    (now : ℕ) (d : Decision) (id : String) (st : Broker)
    → all_ok (decision_checks now d st) ≡ true
    → IsConsumed id st
    → IsConsumed id (settle now d st)
unfolding settle decision_checks
settle-IsConsumed now d id st ok h =
    settle_found-IsConsumed now d (find_request d.request_id st) id st refl
      (all_ok-front (request_checks now d (find_request d.request_id st)) _ ok) h

resolve-IsConsumed :
    (now : ℕ) (d : Decision) (id : String) (st : Broker)
    → IsConsumed id st
    → IsConsumed id (resolve now d st).1
unfolding resolve
resolve-IsConsumed now d id st h =
    if-elim (λ (p : Answer × Broker). IsConsumed id p.1)
      (all_ok (decision_checks now d (expire now st))) _ _
      (λ ok. settle-IsConsumed now d id (expire now st) ok (expire-IsConsumed now id st h))
      λ _. expire-IsConsumed now id st h

spend_found-IsConsumed :
    (now : ℕ) (k : String) (o : Option Request) (id : String) (st : Broker)
    → IsConsumed id st
    → IsConsumed id (spend_found now k o st)
unfolding spend_found
spend_found-IsConsumed now k none id st h = h
spend_found-IsConsumed now k (some q) id st (r, there, done) =
    let spent : Request = record q { status = consumed; consumed_at = some now } in
    elim (Bool-cases (str_eq k id)) [
      | inl same ↦ (spent, get-put k id spent st.requests ∙ rw same refl, refl)
      | inr differs ↦ put-IsConsumed id k spent st differs (r, there, done)
    ]

spend-IsConsumed :
    (now : ℕ) (v : Value) (id : String) (st : Broker)
    → IsConsumed id st
    → IsConsumed id (spend now v st)
unfolding spend
spend-IsConsumed now (text k) id st h = spend_found-IsConsumed now k (get k st.requests) id st h
spend-IsConsumed now null id st h = h
spend-IsConsumed now other id st h = h

consume-IsConsumed :
    (now : ℕ) (v : Value) (b : Binding) (id : String) (st : Broker)
    → IsConsumed id st
    → IsConsumed id (consume now v b st).1
unfolding consume
consume-IsConsumed now v b id st h =
    if-elim (λ (p : Answer × Broker). IsConsumed id p.1) (all_ok (usable now v b st)) _ _
      (λ _. spend-IsConsumed now v id st h) λ _. h

steps-IsConsumed :
    (ops : List Op) (id : String) (st : Broker)
    → All (Avoids id) ops
    → IsConsumed id st
    → IsConsumed id (steps ops st)
unfolding steps step
steps-IsConsumed [] id st avoid h = h
steps-IsConsumed (ask now new_id ttl dry_run b ∷ ops) id st avoid h =
    steps-IsConsumed ops id _ avoid.1 (request-IsConsumed now new_id ttl dry_run b id st avoid.0 h)
steps-IsConsumed (decide now d ∷ ops) id st avoid h =
    steps-IsConsumed ops id _ avoid.1 (resolve-IsConsumed now d id st h)
steps-IsConsumed (use_up now v b ∷ ops) id st avoid h =
    steps-IsConsumed ops id _ avoid.1 (consume-IsConsumed now v b id st h)

spent-IsConsumed :
    (now : ℕ) (id : String) (b : Binding) (o : Option Request) (st : Broker)
    → get id st.requests ≡ o
    → all_ok (usable now (text id) b st) ≡ true
    → IsConsumed id (spend_found now id o st)
unfolding usable usable_found spend_found
spent-IsConsumed now id b none st found ok = absurd (ground (arith, found, ok))
spent-IsConsumed now id b (some q) st found ok =
    let spent : Request = record q { status = consumed; consumed_at = some now } in
    (spent, get-put_self id spent st.requests, refl)

consume-usable :
    (now : ℕ) (v : Value) (b : Binding) (st : Broker)
    → (consume now v b st).0.succeeded ≡ true
    → (all_ok (usable now v b st) ≡ true) × ((consume now v b st).1 ≡ spend now v st)
unfolding consume
consume-usable now v b st h = (ground (arith, h), ground (arith, h))

-- A use that succeeded leaves the request consumed.
used-IsConsumed :
    (now : ℕ) (id : String) (b : Binding) (st : Broker)
    → (consume now (text id) b st).0.succeeded ≡ true
    → IsConsumed id (consume now (text id) b st).1
unfolding spend
used-IsConsumed now id b st h =
    let (ok, after) = consume-usable now (text id) b st h in
    rw after (spent-IsConsumed now id b (get id st.requests) st refl ok)

consumed_refused :
    (now : ℕ) (id : String) (b : Binding) (st : Broker)
    → IsConsumed id st
    → (consume now (text id) b st).0.succeeded ≡ false
unfolding consume usable usable_found
consumed_refused now id b st (r, there, done) = ground (arith, there, done)

-- An approval that was used is refused ever after, whatever requests, decisions and uses come in
-- between, as long as no new request is made with its id.
pub consume-once :
    (now later : ℕ) (id : String) (b b' : Binding) (ops : List Op) (st : Broker)
    → (consume now (text id) b st).0.succeeded ≡ true
    → All (Avoids id) ops
    → (consume later (text id) b' (steps ops (consume now (text id) b st).1)).0.succeeded ≡ false
consume-once now later id b b' ops st used avoid =
    let st1 = (consume now (text id) b st).1 in
    consumed_refused later id b' (steps ops st1)
      (steps-IsConsumed ops id st1 avoid (used-IsConsumed now id b st used))
