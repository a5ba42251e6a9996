-- ===== src/Executions/Registry/Tokens.antt =====
-- What a run token resolves to.
use virgil.Base.{
  ℕ, String, is_empty, str_eq, ◌≡◌, refl, ◌∙◌, true, false, Option, none, some, List, [], ◌∷◌,
  arith, eq_iff, Bool-cases, inl, inr, is_some, contains, eq_refl,
}
use virgil.Base.Dict.{get, keys, get-keys}
use virgil.Executions.Registry.{
  ActiveRun, Registry, accepts, accepted, first_run, find_run, resolve_run_token,
}
use virgil.Executions.Registry.Lookup.{Found, found, find_run-Found}

-- The token is the one of an active run: the map has the run, it is stored, no `Finish` is in
-- flight, and the hashes agree.
pub record Resolves (digest : String → String) (r : Registry) (token run_id : String) : Type 0 where
  pub address : ℕ
  pub active : ActiveRun
  pub is_found : find_run r run_id ≡ some (address, active)
  pub ready_run : active.ready ≡ true
  pub not_finishing : active.finishing ≡ false
  pub same_hash : active.run_token_hash ≡ digest token
  pub not_empty : is_empty token ≡ false

accepted-active :
    (digest : String → String) (o : Option (ℕ × ActiveRun)) (hash : String)
    → accepted digest o hash ≡ true
    → (a : ℕ) × (run : ActiveRun) × (o ≡ some (a, run)) × (accepts digest run hash ≡ true)
unfolding accepted
accepted-active digest none hash h = absurd (cc)
accepted-active digest (some (a, run)) hash h = (a, run, refl, h)

first_run-accepted :
    (digest : String → String) (r : Registry) (ids : List String) (hash run_id : String)
    → first_run digest r ids hash ≡ some run_id
    → accepted digest (find_run r run_id) hash ≡ true
unfolding first_run
first_run-accepted digest r [] hash run_id h = absurd (cc)
first_run-accepted digest r (id ∷ ids) hash run_id h =
    elim (Bool-cases (accepted digest (find_run r id) hash)) [
      | inl y ↦ ground arith
      | inr n ↦ first_run-accepted digest r ids hash run_id (ground arith)
    ]

-- A run in the list that accepts the hash makes the loop return a run.
first_run-is_some :
    (digest : String → String) (r : Registry) (ids : List String) (hash run_id : String)
    → contains run_id ids ≡ true
    → accepted digest (find_run r run_id) hash ≡ true
    → is_some (first_run digest r ids hash) ≡ true
unfolding first_run contains
first_run-is_some digest r [] hash run_id h k = absurd (cc)
first_run-is_some digest r (id ∷ ids) hash run_id h k =
    elim (Bool-cases (accepted digest (find_run r id) hash)) [
      | inl y ↦ ground arith
      | inr n ↦ elim (Bool-cases (str_eq id run_id)) [
        | inl e ↦ ground (arith, eq_iff id run_id)
        | inr e ↦ ground (arith, first_run-is_some digest r ids hash run_id (ground arith) k)
      ]
    ]

-- A token that resolves is the token of the run that it resolves to, which the map has, which is
-- stored and which no `Finish` is ending; the empty token never resolves.
pub resolve-Resolves :
    (digest : String → String) (r : Registry) (token run_id : String)
    → resolve_run_token digest r token ≡ some run_id
    → Resolves digest r token run_id
unfolding resolve_run_token
resolve-Resolves digest r token run_id h = elim (Bool-cases (is_empty token)) [
  | inl y ↦ absurd (ground arith)
  | inr n ↦
      let (a, run, e, k) =
        accepted-active digest (find_run r run_id) (digest token)
          (first_run-accepted digest r (keys r.runs) (digest token) run_id (ground arith)) in
      record {
        address = a;
        active = run;
        is_found = e;
        ready_run = ground arith;
        not_finishing = ground arith;
        same_hash = ground (arith, eq_iff (digest token) run.run_token_hash);
        not_empty = n;
      }
]

mapped_run :
    (r : Registry) (run_id : String) (o : Option (ℕ × ActiveRun))
    → Found r run_id o
    → is_some o ≡ true
    → is_some (get r.runs run_id) ≡ true
mapped_run r run_id none f h = absurd (cc)
mapped_run r run_id (some x) (found e at) h = ground arith

-- The token of an active run resolves.
pub Resolves-resolve :
    (digest : String → String) (r : Registry) (token run_id : String)
    → Resolves digest r token run_id
    → is_some (resolve_run_token digest r token) ≡ true
unfolding resolve_run_token accepted
Resolves-resolve digest r token run_id k =
    let listed : contains run_id (keys r.runs) ≡ true =
      get-keys r.runs run_id
      ∙ mapped_run r run_id (find_run r run_id) (find_run-Found r run_id)
          (ground (arith, k.is_found)) in
    let taken : accepted digest (find_run r run_id) (digest token) ≡ true =
      rw k.is_found
        (ground (arith, k.ready_run, k.not_finishing, k.same_hash, eq_refl (digest token))) in
    ground (
      arith,
      k.not_empty,
      first_run-is_some digest r (keys r.runs) (digest token) run_id listed taken,
    )
