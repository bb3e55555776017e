-- ===== src/Ports/Laws.antt =====
-- What the ports in memory keep and return: crates/kboard-core/src/ports.rs, `memory`.
use k_board.Common.{
  ℕ, zero, suc, ◌+◌, ◌≤◌, min, Bool, false, ◌||◌, ◌&&◌, List, [], ◌∷◌, ◌++◌, none, some, length,
  drop, any, unwrap_or, ◌==◌, ◌≡◌, ◌≢◌, ◌↔◌, refl, ap, sym, ◌∙◌, arith, Option-cases, inl, inr,
  length-append, Bool-cases,
}
use k_board.Common.Order.{bytes_ord, equals, equals_self, same_of_equals}
use k_board.Common.Map
use k_board.Common.Map.Laws.{lookup-insert}
use k_board.Clock.{ActorId}
use k_board.Document.{ScopeId}
use k_board.Op.{StampedOp}
use k_board.Snapshot.{Snapshot}
use k_board.Ports.{
  ok, Members, admit, may_read, may_write, Logs, append, read_since, count, Stored, load, store,
}

equals_of_ne : (a b : ScopeId) → a ≢ b → equals a b ≡ false
equals_of_ne a b h = elim (Bool-cases (equals a b)) [
  | inl same ↦ absurd (h (same_of_equals a b same))
  | inr apart ↦ apart
]

any-snoc : (p : ℕ → Bool) (xs : List ℕ) (x : ℕ) → any p (xs ++ x ∷ []) ≡ (any p xs || p x)
any-snoc p [] x = ground arith
any-snoc p (y ∷ xs) x = ground (arith, any-snoc p xs x)

-- Admitting an actor to a scope lets that actor read and write that scope, and changes the answer
-- for no other actor and no other scope.
pub admit_lem :
    (members : Members) (scope other : ScopeId) (actor someone : ActorId)
    → let after = admit members scope actor in
      (may_read after other someone
        ≡ (may_read members other someone || (equals other scope && actor == someone)))
      × (may_write after other someone ≡ may_read after other someone)
unfolding admit may_read may_write
admit_lem members scope other actor someone = (
  ground (
    arith,
    lookup-insert other scope (unwrap_or [] (Map.lookup scope members) ++ actor ∷ []) members,
    same_of_equals other scope,
    any-snoc (λ a. a == someone) (unwrap_or [] (Map.lookup scope members)) actor,
  ),
  refl,
)

drop-append : (n : ℕ) (xs ys : List StampedOp) → n ≤ length xs → drop n (xs ++ ys) ≡ drop n xs ++ ys
drop-append zero xs ys h = refl
drop-append (suc n) [] ys h = absurd (omega arith)
drop-append (suc n) (x ∷ xs) ys h = drop-append n xs ys (omega arith)

drop_within :
    (n : ℕ) (xs : List StampedOp) → n ≤ length xs → drop (min n (length xs)) xs ≡ drop n xs
drop_within n xs h = let e : min n (length xs) ≡ n = omega arith in ap (λ k. drop k xs) e

resumed :
    (n : ℕ) (xs ys : List StampedOp)
    → n ≤ length xs
    → drop (min n (length (xs ++ ys))) (xs ++ ys) ≡ drop (min n (length xs)) xs ++ ys
resumed n xs ys h =
    drop_within n (xs ++ ys) (omega (arith, length-append xs ys))
    ∙ drop-append n xs ys h
    ∙ ap (λ zs. zs ++ ys) (sym (drop_within n xs h))

-- The log of a scope, empty where it has none.
abbrev pub log_of : Logs → ScopeId → List StampedOp
log_of logs scope = unwrap_or [] (Map.lookup scope logs)

read_since_log :
    (logs : Logs) (scope : ScopeId) (after : ℕ)
    → read_since logs scope after
      ≡ ok (drop (min after (length (log_of logs scope))) (log_of logs scope))
unfolding read_since
read_since_log logs scope after =
    elim (Map.lookup scope logs)
      as (λ o.
        (elim o [ none ↦ ok [] | some log ↦ ok (drop (min after (length log)) log) ])
        ≡ ok (drop (min after (length (unwrap_or [] o))) (unwrap_or [] o))) [
          | none ↦ ap (λ n. ok (drop n [])) (let e : 0 ≡ min after 0 = omega arith in e)
          | some log ↦ refl
        ]

count_log : (logs : Logs) (scope : ScopeId) → count logs scope ≡ ok (length (log_of logs scope))
unfolding count
count_log logs scope = ground (arith, Option-cases (Map.lookup scope logs))

append_log :
    (logs : Logs) (scope : ScopeId) (ops : List StampedOp)
    → log_of (append logs scope ops).0 scope ≡ log_of logs scope ++ ops
unfolding append
append_log logs scope ops =
    ground (arith, lookup-insert scope scope (log_of logs scope ++ ops) logs, equals_self scope)

appended :
    (logs : Logs) (scope : ScopeId) (ops : List StampedOp)
    → (append logs scope ops).1 ≡ ok (length (log_of logs scope ++ ops))
unfolding append
appended logs scope ops = refl

append_apart :
    (logs : Logs) (scope other : ScopeId) (ops : List StampedOp)
    → other ≢ scope
    → log_of (append logs scope ops).0 other ≡ log_of logs other
unfolding append
append_apart logs scope other ops h =
    ground
      (arith, lookup-insert other scope (log_of logs scope ++ ops) logs, equals_of_ne other scope h)

-- Appending to a scope returns the count of its log afterwards, which grew by the operations
-- appended. A client that resumes from a place in the log before it reads what it would have read,
-- and the operations after it. What other scopes read and count stays.
pub append_lem :
    (logs : Logs) (scope other : ScopeId) (ops : List StampedOp) (after from : ℕ)
    → other ≢ scope
    → after ≤ length (log_of logs scope)
    → let (logs', result) = append logs scope ops in
      (result ≡ count logs' scope)
      × (result ≡ ok (length (log_of logs scope) + length ops))
      × (read_since logs' scope after
          ≡ ok (drop (min after (length (log_of logs scope))) (log_of logs scope) ++ ops))
      × (read_since logs' other from ≡ read_since logs other from)
      × (count logs' other ≡ count logs other)
append_lem logs scope other ops after from apart h =
    let logs' = (append logs scope ops).0 in
    let own = append_log logs scope ops in
    let rest = append_apart logs scope other ops apart in
    let length_result = appended logs scope ops in
    (
      length_result ∙ ap ok (sym (ap length own)) ∙ sym (count_log logs' scope),
      length_result ∙ ap ok (length-append (log_of logs scope) ops),
      read_since_log logs' scope after
          ∙ ap (λ log. ok (drop (min after (length log)) log)) own
          ∙ ap ok (resumed after (log_of logs scope) ops h),
      read_since_log logs' other from
          ∙ ap (λ log. ok (drop (min from (length log)) log)) rest
          ∙ sym (read_since_log logs other from),
      count_log logs' other ∙ ap (λ log. ok (length log)) rest ∙ sym (count_log logs other),
    )

-- A snapshot is stored under a scope exactly when it is of that scope, and refused otherwise with
-- nothing changed. What is loaded afterwards is the snapshot that was stored, and for other scopes
-- what was there before.
pub store_lem :
    (stored : Stored) (scope other : ScopeId) (s : Snapshot)
    → other ≢ scope
    → let (stored', result) = store stored scope s in
      ((result ≡ ok tt) ↔ (s.document.scope ≡ scope))
      × (result ≡ ok tt → load stored' scope ≡ ok (some s))
      × (result ≢ ok tt → stored' ≡ stored)
      × (load stored' other ≡ load stored other)
unfolding store load
store_lem stored scope other s apart = elim (Bool-cases (equals s.document.scope scope)) [
  | inl same ↦ rw same (
    (λ h. same_of_equals s.document.scope scope same, λ h. refl),
    λ h. ap ok (ground (arith, lookup-insert scope scope s stored, equals_self scope)),
    λ h. absurd (h refl),
    ap ok (ground (arith, lookup-insert other scope s stored, equals_of_ne other scope apart)),
  )
  | inr differs ↦ rw differs (
    (λ h. cc, λ h. cc (differs, equals_self scope, ap (λ x. equals x scope) h)),
    λ h. cc,
    λ h. refl,
    refl,
  )
]
