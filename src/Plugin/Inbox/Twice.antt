-- ===== src/Plugin/Inbox/Twice.antt =====
-- A decision of the inbox is applied once, also when a crash keeps its file there.
use openclaw_ecc_orchestrato.Prelude.{
  Bool-cases, or_else, ℕ, String, ◌≡◌, refl, ap, ◌∙◌, inl, inr, true, false, Option, none, some,
  arith, eq_iff,
}
use openclaw_ecc_orchestrato.Prelude.Dict.{get, put, get-put_self, get-pop}
use openclaw_ecc_orchestrato.Plugin.Approvals.{
  Value, null, other, text, rejected, is_pending, Request, Broker, Decision, all_ok, expire_one,
  find_request, verdict, decision_checks,
}
use openclaw_ecc_orchestrato.Plugin.Approvals.Brokering.{
  Answer, expire, settled, settle_found, settle, resolve,
}
use openclaw_ecc_orchestrato.Plugin.Approvals.Once.{request_checks-pending, get-expire_all}
use openclaw_ecc_orchestrato.Plugin.Approvals.Binds.{checks-front, resolve-Accepts}
use openclaw_ecc_orchestrato.Plugin.Inbox.{
  DecisionFile, symlink, other_type, unopenable, too_large, not_json, not_object, holds, opened,
  Inbox, Claim, open_file, read_file, refused_file, move_file, record_result, finish_file,
  resolve_decision, process_read, process_opened, process_one, crashed,
}

-- The request that the decision names is there, and no longer pending.
abbrev pub IsSettled : Decision → Broker → Type 0
IsSettled d b =
    (id : String) × (q : Request) × (d.request_id ≡ text id)
    × (get id b.requests ≡ some q)
    × (is_pending q.status ≡ false)

verdict-settles : (v : Value) → is_pending (or_else (verdict v) rejected) ≡ false
unfolding verdict
verdict-settles (text t) = ground arith
verdict-settles null = refl
verdict-settles other = refl

expire_one-settled : (now : ℕ) (q : Request) → is_pending q.status ≡ false → expire_one now q ≡ q
unfolding expire_one
expire_one-settled now q h = ground (arith, h)

expire-IsSettled :
    (now : ℕ) (d : Decision) (b : Broker) → IsSettled d b → IsSettled d (expire now b)
unfolding expire
expire-IsSettled now d b (id, q, named, there, done) = (
  id,
  q,
  named,
  get-expire_all now id b.requests q there ∙ ap some (expire_one-settled now q done),
  done,
)

resolve-settle :
    (now : ℕ) (d : Decision) (b : Broker)
    → (resolve now d b).0.succeeded ≡ true
    → (resolve now d b).1 ≡ settle now d (expire now b)
unfolding resolve
resolve-settle now d b h = ground (arith, h)

settle-put :
    (now : ℕ) (d : Decision) (b : Broker) (id : String) (q : Request)
    → d.request_id ≡ text id
    → get id b.requests ≡ some q
    → (settle now d b).requests
      ≡ put id (settled now (or_else (verdict d.decision) rejected) d.decided_by q) b.requests
unfolding settle settle_found find_request
settle-put now d b id q named there = rw (named, there) refl

settle-IsSettled :
    (now : ℕ) (d : Decision) (b : Broker) (id : String) (q : Request)
    → d.request_id ≡ text id
    → get id b.requests ≡ some q
    → IsSettled d (settle now d b)
unfolding settled
settle-IsSettled now d b id q named there =
    let r = settled now (or_else (verdict d.decision) rejected) d.decided_by q in
    (
      id,
      r,
      named,
      ap (get id) (settle-put now d b id q named there) ∙ get-put_self id r b.requests,
      verdict-settles d.decision,
    )

-- After a decision that is accepted, the request that it names is settled.
resolve-IsSettled :
    (now : ℕ) (d : Decision) (b : Broker)
    → (resolve now d b).0.succeeded ≡ true
    → IsSettled d (resolve now d b).1
resolve-IsSettled now d b h =
    let (id, q, there, a) = resolve-Accepts now d b h in
    rw (resolve-settle now d b h) (settle-IsSettled now d (expire now b) id q a.named there)

settled-refused :
    (now : ℕ) (d : Decision) (b : Broker)
    → IsSettled d b
    → ¬ (all_ok (decision_checks now d b) ≡ true)
unfolding find_request
settled-refused now d b (id, q, named, there, done) ok =
    let found : find_request d.request_id b ≡ some q = ap (λ v. find_request v b) named ∙ there in
    let waits = request_checks-pending now d q (rw found at (checks-front now d b ok)) in
    ground (arith, waits, done)

-- A decision for a request that is settled is refused, and no request changes but by expiry.
resolve-settled :
    (now : ℕ) (d : Decision) (b : Broker)
    → IsSettled d b
    → ((resolve now d b).0.succeeded ≡ false)
      × ((resolve now d b).1.requests ≡ (expire now b).requests)
unfolding resolve
resolve-settled now d b h = elim (Bool-cases (all_ok (decision_checks now d (expire now b)))) [
  | inl ok ↦ absurd (settled-refused now d (expire now b) (expire-IsSettled now d b h) ok)
  | inr refused ↦ (rw refused refl, rw refused refl)
]

-- A file whose processing is a success holds a decision that the broker accepts.
opened-resolves :
    (c : Claim) (name : String) (o : Option DecisionFile) (st : Inbox) (a : Answer)
    → (process_opened c name (open_file o) st).0 ≡ some a
    → a.succeeded ≡ true
    → (d : Decision) × (o ≡ some (holds d))
      × (c.claimed ≡ true)
      × ((resolve c.now d st.broker).0 ≡ a)
unfolding process_opened open_file process_read read_file finish_file refused_file resolve_decision
opened-resolves c name none st a h good = absurd (ground (arith, h))
opened-resolves c name (some symlink) st a h good = absurd (ground (arith, h, good))
opened-resolves c name (some other_type) st a h good = absurd (ground (arith, h))
opened-resolves c name (some unopenable) st a h good = absurd (ground (arith, h, good))
opened-resolves c name (some too_large) st a h good = absurd (ground (arith, h, good))
opened-resolves c name (some not_json) st a h good = absurd (ground (arith, h, good))
opened-resolves c name (some not_object) st a h good = absurd (ground (arith, h, good))
opened-resolves c name (some (holds d)) st a h good =
    (d, refl, ground (arith, h), ground (arith, h))

-- The inbox after the broker has resolved the decision.
abbrev answered : ℕ → Decision → Inbox → Inbox
answered now d st = record st { broker = (resolve now d st.broker).1 }

opened-holds :
    (c : Claim) (name : String) (d : Decision) (st : Inbox)
    → c.claimed ≡ true
    → process_opened c name (opened (holds d)) st
      ≡ finish_file name (resolve c.now d st.broker).0 (answered c.now d st)
unfolding process_opened process_read read_file resolve_decision
opened-holds c name d st claimed = rw claimed refl

process_one-holds :
    (c : Claim) (name : String) (d : Decision) (st : Inbox)
    → get name st.files ≡ some (holds d)
    → c.claimed ≡ true
    → process_one c name st ≡ finish_file name (resolve c.now d st.broker).0 (answered c.now d st)
unfolding process_one open_file
process_one-holds c name d st there claimed =
    ap (λ o. process_opened c name (open_file o) st) there ∙ opened-holds c name d st claimed

move_file-broker :
    (name : String) (o : Option DecisionFile) (st : Inbox)
    → (move_file name o st).broker ≡ st.broker
unfolding move_file
move_file-broker name none st = refl
move_file-broker name (some e) st = refl

move_file-results :
    (name : String) (o : Option DecisionFile) (st : Inbox)
    → (move_file name o st).results ≡ st.results
unfolding move_file
move_file-results name none st = refl
move_file-results name (some e) st = refl

move_file-gone :
    (name : String) (o : Option DecisionFile) (st : Inbox)
    → get name st.files ≡ o
    → get name (move_file name o st).files ≡ none
unfolding move_file
move_file-gone name none st h = h
move_file-gone name (some e) st h = get-pop name name st.files ∙ ground (arith, eq_iff name name)

-- What is recorded of a file: its result, its removal, and the broker as it is.
record_result-lem :
    (name : String) (a : Answer) (st : Inbox)
    → ((record_result name a st).broker ≡ st.broker)
      × (get name (record_result name a st).results ≡ some a)
      × (get name (record_result name a st).files ≡ none)
unfolding record_result
record_result-lem name a st =
    let noted : Inbox = record st { results = put name a st.results } in
    (
      move_file-broker name (get name st.files) noted,
      ap (get name) (move_file-results name (get name st.files) noted)
          ∙ get-put_self name a st.results,
      move_file-gone name (get name st.files) noted refl,
    )

-- The next pass over a file after a crash.
abbrev pub retried : Claim → Claim → String → Inbox → Option Answer × Inbox
retried c later name st = process_one later name (crashed c name st)

holds-once :
    (c later : Claim) (name : String) (st : Inbox) (d : Decision)
    → get name st.files ≡ some (holds d)
    → c.claimed ≡ true
    → later.claimed ≡ true
    → (resolve c.now d st.broker).0.succeeded ≡ true
    → (a : Answer) × ((retried c later name st).0 ≡ some a)
      × (a.succeeded ≡ false)
      × ((retried c later name st).1.broker.requests
          ≡ (expire later.now (crashed c name st).broker).requests)
      × (get name (retried c later name st).1.results ≡ some a)
      × (get name (retried c later name st).1.files ≡ none)
unfolding finish_file crashed
holds-once c later name st d there claimed again good =
    let b : Broker = (resolve c.now d st.broker).1 in
    let a : Answer = (resolve later.now d b).0 in
    let kept : (process_one c name st).1.broker ≡ b =
      rw (process_one-holds c name d st there claimed)
        (record_result-lem name (resolve c.now d st.broker).0 (answered c.now d st)).0 in
    let (refused, same) =
      resolve-settled later.now d b (resolve-IsSettled c.now d st.broker good) in
    let at : Inbox = record st { broker = b } in
    let (broker, noted, moved) = record_result-lem name a (answered later.now d at) in
    rw (kept, process_one-holds later name d at there again)
      (a, refl, refused, ap (λ (x : Broker). x.requests) broker ∙ same, noted, moved)

-- When a file is processed with success and a crash comes after the broker's write and before the
-- record of the result, the next pass that claims the file applies the decision no second time: it
-- answers with a refusal, the requests change by expiry only, the refusal is recorded as the result of
-- the file, and the file leaves the inbox.
pub process_one-once :
    (c later : Claim) (name : String) (st : Inbox) (first : Answer)
    → (process_one c name st).0 ≡ some first
    → first.succeeded ≡ true
    → later.claimed ≡ true
    → (a : Answer) × ((retried c later name st).0 ≡ some a)
      × (a.succeeded ≡ false)
      × ((retried c later name st).1.broker.requests
          ≡ (expire later.now (crashed c name st).broker).requests)
      × (get name (retried c later name st).1.results ≡ some a)
      × (get name (retried c later name st).1.files ≡ none)
unfolding process_one
process_one-once c later name st first h good again =
    let (d, there, claimed, same) = opened-resolves c name (get name st.files) st first h good in
    holds-once c later name st d there claimed again (ap (λ (x : Answer). x.succeeded) same ∙ good)
