-- ===== src/Client/Dial/Paths.antt =====
-- Which paths are dialled, and that their ids differ.
use Prim.Native.String.{String}
use text.Mathlib.Text.{◌==◌ as str_eq}
use mvp_vpn_lite.Base.{
  ℕ, ◌+◌, ◌≤◌, ◌<◌, ◌≡◌, ◌≢◌, refl, arith, Bool, List, [], ◌∷◌, ◌++◌, Result, ok, err, panic,
  length, length-append, false, ◌&&◌, All, Bool-cases, inl, inr,
}
use mvp_vpn_lite.Base.Act.{Act}
use mvp_vpn_lite.Io.{IoError}
use mvp_vpn_lite.Stats.{Counters, add_error}
use mvp_vpn_lite.Client.Path.{ClientPath}
use mvp_vpn_lite.Client.PathSet.{new_client_path_set}
use mvp_vpn_lite.Client.PathSet.Invariant.{Distinct, Avoids, IsValid, new-IsValid}
use mvp_vpn_lite.Client.Dial.{
  Network, ClientPathSpec, DialError, client_path_specs, after_open_stream, after_dial_addr,
  dial_client_path, after_dial, dial_specs, dial_client_paths, after_try, dial_available,
  dial_available_client_paths,
}

-- Ids above all of the paths', and rising along the specs.
abbrev Rising : ℕ → List ClientPathSpec → Type 0
Rising least [] = Unit {0}
Rising least (spec ∷ specs) = (least ≤ spec.id) × Rising (spec.id + 1) specs

abbrev Below : ℕ → List ClientPath → Type 0
Below bound = All (λ (p : ClientPath). p.id < bound)

Below-le : (a b : ℕ) (paths : List ClientPath) → a ≤ b → Below a paths → Below b paths
Below-le a b [] le h = tt
Below-le a b (p ∷ paths) le h = (omega arith, Below-le a b paths le h.1)

Below-append :
    (bound : ℕ) (paths : List ClientPath) (p : ClientPath)
    → Below bound paths
    → p.id < bound
    → Below bound (paths ++ (p ∷ []))
Below-append bound [] p h lt = (lt, tt)
Below-append bound (q ∷ paths) p h lt = (h.0, Below-append bound paths p h.1 lt)

Avoids-append :
    (id : ℕ) (paths : List ClientPath) (p : ClientPath)
    → Avoids id paths
    → p.id ≢ id
    → Avoids id (paths ++ (p ∷ []))
Avoids-append id [] p h ne = (ne, tt)
Avoids-append id (q ∷ paths) p h ne = (h.0, Avoids-append id paths p h.1 ne)

Distinct-append :
    (paths : List ClientPath) (p : ClientPath)
    → Distinct paths
    → Below p.id paths
    → Distinct (paths ++ (p ∷ []))
Distinct-append [] p d h = (tt, tt)
Distinct-append (q ∷ paths) p d h =
    (Avoids-append q.id paths p d.0 (omega arith), Distinct-append paths p d.1 h.1)

specs-Rising : (server0 server1 : String) → Rising 0 (client_path_specs server0 server1)
unfolding client_path_specs
specs-Rising server0 server1 = elim (Bool-cases (str_eq server0 "")) [
  | inl none0 ↦ elim (Bool-cases (str_eq server1 "")) [
    | inl none1 ↦ rw (none0, none1) tt
    | inr some1 ↦ rw (none0, some1) (omega arith)
  ]
  | inr some0 ↦ elim (Bool-cases (str_eq server1 "")) [
    | inl none1 ↦ rw (some0, none1) (omega arith)
    | inr some1 ↦ rw (some0, some1) (omega arith)
  ]
]

module _ {W : Type 0} (net : Network W) where
  -- A path that is dialled has the id of its spec.
  abbrev pub HasId : ℕ → Result DialError ClientPath × W → Type 0
  HasId id (ok p, w) = p.id ≡ id
  HasId id _ = Unit {0}

  stream-HasId :
      (spec : ClientPathSpec) (conn : ℕ) (result : Result IoError ℕ × W)
      → HasId spec.id (after_open_stream net spec conn result)
  unfolding after_open_stream
  stream-HasId spec conn (ok stream, w) = refl
  stream-HasId spec conn (err e, w) = tt
  stream-HasId spec conn (panic, w) = tt

  addr-HasId :
      (spec : ClientPathSpec) (result : Result IoError ℕ × W)
      → HasId spec.id (after_dial_addr net spec result)
  unfolding after_dial_addr
  addr-HasId spec (ok conn, w) = stream-HasId spec conn (net.open_stream conn w)
  addr-HasId spec (err e, w) = tt
  addr-HasId spec (panic, w) = tt

  pub dial-HasId : (spec : ClientPathSpec) (w : W) → HasId spec.id (dial_client_path net spec w)
  unfolding dial_client_path
  dial-HasId spec w = addr-HasId spec (net.dial_addr spec.address w)

  after_dial-length :
      (again : List ClientPath → Act W DialError (List ClientPath)) (so_far paths : List ClientPath)
      (more : ℕ) (result : Result DialError ClientPath × W)
      → ((next : List ClientPath) (w : W)
          → (again next w).0 ≡ ok paths
          → length paths ≡ length next + more)
      → (after_dial net again so_far result).0 ≡ ok paths
      → length paths ≡ length so_far + (1 + more)
  unfolding after_dial
  after_dial-length again so_far paths more (ok p, w) h e =
      omega (arith, h (so_far ++ (p ∷ [])) w e, length-append so_far (p ∷ []))
  after_dial-length again so_far paths more (err x, w) h e = absurd (cc e)
  after_dial-length again so_far paths more (panic, w) h e = absurd (cc e)

  dial_specs-length :
      (specs : List ClientPathSpec) (so_far paths : List ClientPath) (w : W)
      → (dial_specs net specs so_far w).0 ≡ ok paths
      → length paths ≡ length so_far + length specs
  unfolding dial_specs
  dial_specs-length [] so_far paths w e = let same : so_far ≡ paths = cc e in rw same (omega arith)
  dial_specs-length (spec ∷ specs) so_far paths w e = omega (
    arith,
    after_dial-length (dial_specs net specs) so_far paths (length specs)
        (dial_client_path net spec w) (λ next w' e'. dial_specs-length specs next paths w' e') e,
  )

  -- `dialClientPaths` returns a path for each server, so at least one if there is a server.
  pub dialed_some :
      (server0 server1 : String) (w : W) (paths : List ClientPath)
      → (str_eq server0 "" && str_eq server1 "") ≡ false
      → (dial_client_paths net server0 server1 w).0 ≡ ok paths
      → 0 < length paths
  unfolding dial_client_paths client_path_specs
  dialed_some server0 server1 w paths given e =
      let counted = dial_specs-length (client_path_specs server0 server1) [] paths w e in
      ground (arith, counted)

  module _ (ctx_done : W → Bool) where
    try-Distinct :
        (again : List ClientPath → W → Counters → List ClientPath × W × Counters)
        (paths : List ClientPath) (c : Counters) (id : ℕ) (result : Result DialError ClientPath × W)
        → HasId id result
        → Distinct paths
        → Below id paths
        → ((more : List ClientPath) (w : W) (d : Counters)
            → Distinct more
            → Below (id + 1) more
            → Distinct (again more w d).0)
        → Distinct (after_try net ctx_done again paths c result).0
    unfolding after_try
    try-Distinct again paths c id (ok p, w) same d b next =
        next (paths ++ (p ∷ [])) w c (Distinct-append paths p d (rw same b))
          (Below-append (id + 1) paths p (Below-le id (id + 1) paths (omega arith) b) (omega arith))
    try-Distinct again paths c id (err e, w) same d b next = elim (Bool-cases (ctx_done w)) [
      | inl done ↦ rw done d
      | inr going ↦
          rw going (next paths w (add_error c) d (Below-le id (id + 1) paths (omega arith) b))
    ]
    try-Distinct again paths c id (panic, w) same d b next = d

    available-Distinct :
        (specs : List ClientPathSpec) (least : ℕ) (paths : List ClientPath) (w : W) (c : Counters)
        → Rising least specs
        → Distinct paths
        → Below least paths
        → Distinct (dial_available net ctx_done specs paths w c).0
    unfolding dial_available
    available-Distinct [] least paths w c r d b = d
    available-Distinct (spec ∷ specs) least paths w c r d b =
        try-Distinct (dial_available net ctx_done specs) paths c spec.id
          (dial_client_path net spec w) (dial-HasId spec w) d (Below-le least spec.id paths r.0 b)
          λ more w' e d' b'. available-Distinct specs (spec.id + 1) more w' e r.1 d' b'

    -- The paths that a TUN client starts with make a valid path set, whichever dials fail.
    pub dialed-IsValid :
        (server0 server1 : String) (w : W) (c : Counters)
        → IsValid (
            new_client_path_set
              (dial_available_client_paths net ctx_done (client_path_specs server0 server1) w c).0)
    unfolding dial_available_client_paths
    dialed-IsValid server0 server1 w c = new-IsValid _ (
        available-Distinct (client_path_specs server0 server1) 0 [] w c
          (specs-Rising server0 server1) tt tt)
