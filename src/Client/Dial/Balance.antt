-- ===== src/Client/Dial/Balance.antt =====
-- No connection is leaked by dialling.
use mvp_vpn_lite.Base.{
  ℕ, ◌≡◌, ◌≢◌, refl, ◌∙◌, sym, ap, Bool, List, [], ◌∷◌, ◌++◌, Result, ok, err, panic, ◌==◌,
  Bool-cases, inl, inr, All, All-append, ne→==,
}
use mvp_vpn_lite.Base.Handles.{without, without_self, New}
use Prim.Native.String.{String}
use mvp_vpn_lite.Io.{IoError}
use mvp_vpn_lite.Client.Path.{ClientPath}
use mvp_vpn_lite.Stats.{Counters, add_error}
use mvp_vpn_lite.Client.Dial.Closed.{closed, opened, opened-append, closed-New}
use mvp_vpn_lite.Client.Dial.{
  Network, ClientPathSpec, DialError, client_path_specs, close_client_path, close_client_paths,
  after_open_stream, after_dial_addr, dial_client_path, after_dial, dial_specs, dial_client_paths,
  after_try, dial_available, dial_available_client_paths,
}

-- The QUIC calls, with the connections that are open: a dial opens a new one, unless it fails; closing
-- one closes that one, if it is open; a stream is none. No handle is nil, and the calls do not panic.
pub record Counting {W : Type 0} (net : Network W) (open_conns : W → List ℕ) : Type 0 where
  pub dial_ok :
      (address : String) (w w' : W) (conn : ℕ)
      → net.dial_addr address w ≡ (ok conn, w')
      → (conn ≢ 0) × New conn (open_conns w) × (open_conns w' ≡ conn ∷ open_conns w)
  pub dial_err :
      (address : String) (w w' : W) (e : IoError)
      → net.dial_addr address w ≡ (err e, w')
      → open_conns w' ≡ open_conns w
  pub dial-ne-panic : (address : String) (w : W) → (net.dial_addr address w).0 ≢ panic
  pub stream_keeps : (conn : ℕ) (w : W) → open_conns (net.open_stream conn w).1 ≡ open_conns w
  pub stream-ne-panic : (conn : ℕ) (w : W) → (net.open_stream conn w).0 ≢ panic
  pub close_one :
      (conn : ℕ) (w : W) → open_conns (net.close_conn conn w) ≡ without conn (open_conns w)
  pub close_stream_keeps :
      (stream : ℕ) (w : W) → open_conns (net.close_stream stream w) ≡ open_conns w

module _ {W : Type 0} (net : Network W) (open_conns : W → List ℕ)
    (laws : Counting net open_conns) where
  abbrev pub Connected : List ClientPath → Type 0
  Connected = All (λ (p : ClientPath). p.conn ≢ 0)

  -- Besides the connections of the paths exactly those of the base are open, and the paths have nothing
  -- of the base.
  pub record Open (base : List ℕ) (paths : List ClientPath) (w : W) : Type 0 where
    pub connected : Connected paths
    pub connections : open_conns w ≡ opened paths base
    pub apart : closed paths (open_conns w) ≡ base

  pub close_path_balance :
      (p : ClientPath) (w : W)
      → p.conn ≢ 0
      → open_conns (close_client_path net p w) ≡ without p.conn (open_conns w)
  unfolding close_client_path
  close_path_balance p w ne = elim (Bool-cases (p.stream == 0)) [
    | inl nil ↦ rw (nil, ne→== p.conn 0 ne) (laws.close_one p.conn w)
    | inr open_stream ↦
        rw (open_stream, ne→== p.conn 0 ne)
          (laws.close_one p.conn (net.close_stream p.stream w)
            ∙ ap (without p.conn) (laws.close_stream_keeps p.stream w))
  ]

  pub close_paths_balance :
      (paths : List ClientPath) (w : W)
      → Connected paths
      → open_conns (close_client_paths net paths w) ≡ closed paths (open_conns w)
  unfolding close_client_paths closed
  close_paths_balance [] w h = refl
  close_paths_balance (p ∷ paths) w h =
      close_paths_balance paths (close_client_path net p w) h.1
      ∙ ap (closed paths) (close_path_balance p w h.0)

  -- What a dial of one path leaves open.
  abbrev pub DialEnds : List ℕ → Result DialError ClientPath × W → Type 0
  DialEnds l (ok p, w) = (p.conn ≢ 0) × New p.conn l × (open_conns w ≡ p.conn ∷ l)
  DialEnds l (err e, w) = open_conns w ≡ l
  DialEnds l (panic, w) = ⊥

  stream_ends :
      (spec : ClientPathSpec) (conn : ℕ) (l : List ℕ) (result : Result IoError ℕ × W)
      → conn ≢ 0
      → New conn l
      → open_conns result.1 ≡ conn ∷ l
      → result.0 ≢ panic
      → DialEnds l (after_open_stream net spec conn result)
  unfolding after_open_stream
  stream_ends spec conn l (ok stream, w) ne new e np = (ne, new, e)
  stream_ends spec conn l (err x, w) ne new e np =
      laws.close_one conn w ∙ ap (without conn) e ∙ without_self conn l ∙ new
  stream_ends spec conn l (panic, w) ne new e np = np refl

  addr_ends :
      (spec : ClientPathSpec) (w : W) (result : Result IoError ℕ × W)
      → net.dial_addr spec.address w ≡ result
      → DialEnds (open_conns w) (after_dial_addr net spec result)
  unfolding after_dial_addr
  addr_ends spec w (ok conn, w') e =
      let (ne, new, more) = laws.dial_ok spec.address w w' conn e in
      stream_ends spec conn (open_conns w) (net.open_stream conn w') ne new
        (laws.stream_keeps conn w' ∙ more) (laws.stream-ne-panic conn w')
  addr_ends spec w (err x, w') e = laws.dial_err spec.address w w' x e
  addr_ends spec w (panic, w') e = absurd (laws.dial-ne-panic spec.address w (cc e))

  pub dial_ends :
      (spec : ClientPathSpec) (w : W) → DialEnds (open_conns w) (dial_client_path net spec w)
  unfolding dial_client_path
  dial_ends spec w = addr_ends spec w (net.dial_addr spec.address w) refl

  -- One more path, dialled from w.
  more-Open :
      (base : List ℕ) (paths : List ClientPath) (p : ClientPath) (w w' : W)
      → Open base paths w
      → DialEnds (open_conns w) (ok p, w')
      → Open base (paths ++ (p ∷ [])) w'
  more-Open base paths p w w' h (ne, new, e) = record {
    connected = All-append (λ (q : ClientPath). q.conn ≢ 0) paths (p ∷ []) h.connected (ne, tt);
    connections = e ∙ ap (λ l. p.conn ∷ l) h.connections ∙ sym (opened-append paths p base);
    apart = ap (closed (paths ++ (p ∷ []))) e ∙ closed-New paths p (open_conns w) new ∙ h.apart;
  }

  same-Open :
      (base : List ℕ) (paths : List ClientPath) (w w' : W)
      → Open base paths w
      → open_conns w' ≡ open_conns w
      → Open base paths w'
  same-Open base paths w w' h e = record {
    connected = h.connected;
    connections = e ∙ h.connections;
    apart = ap (closed paths) e ∙ h.apart;
  }

  none-Open : (w : W) → Open (open_conns w) [] w
  unfolding closed opened
  none-Open w = record { connected = tt; connections = refl; apart = refl }

  -- What dialling all paths leaves open: a connection for each path, or none if one failed.
  unfoldable pub AllEnds : List ℕ → Result DialError (List ClientPath) × W → Type 0
  AllEnds base (ok paths, w) = Open base paths w
  AllEnds base (err e, w) = open_conns w ≡ base
  AllEnds base (panic, w) = ⊥

  after_dial_balance :
      (again : List ClientPath → W → Result DialError (List ClientPath) × W)
      (paths : List ClientPath) (base : List ℕ) (w : W) (result : Result DialError ClientPath × W)
      → Open base paths w
      → DialEnds (open_conns w) result
      → ((more : List ClientPath) (w' : W) → Open base more w' → AllEnds base (again more w'))
      → AllEnds base (after_dial net again paths result)
  unfolding after_dial AllEnds
  after_dial_balance again paths base w (ok p, w') h e next =
      next (paths ++ (p ∷ [])) w' (more-Open base paths p w w' h e)
  after_dial_balance again paths base w (err x, w') h e next =
      close_paths_balance paths w' h.connected ∙ ap (closed paths) e ∙ h.apart
  after_dial_balance again paths base w (panic, w') h e next = e

  dial_specs_balance :
      (specs : List ClientPathSpec) (paths : List ClientPath) (base : List ℕ) (w : W)
      → Open base paths w
      → AllEnds base (dial_specs net specs paths w)
  unfolding dial_specs AllEnds
  dial_specs_balance [] paths base w h = h
  dial_specs_balance (spec ∷ specs) paths base w h =
      after_dial_balance (dial_specs net specs) paths base w (dial_client_path net spec w) h
        (dial_ends spec w) λ more w' h'. dial_specs_balance specs more base w' h'

  -- `dialClientPaths` leaves open one connection for each path that it returns, and none when it
  -- fails; it does not panic.
  pub dial_client_paths_balance :
      (server0 server1 : String) (w : W)
      → AllEnds (open_conns w) (dial_client_paths net server0 server1 w)
  unfolding dial_client_paths
  dial_client_paths_balance server0 server1 w =
      dial_specs_balance (client_path_specs server0 server1) [] (open_conns w) w (none-Open w)

  -- The paths that are returned hold the connections that were opened.
  abbrev Holds : List ℕ → List ClientPath × W × Counters → Type 0
  Holds base (paths, w, c) = Open base paths w

  after_try_balance :
      (ctx_done : W → Bool)
      (again : List ClientPath → W → Counters → List ClientPath × W × Counters)
      (paths : List ClientPath) (base : List ℕ) (c : Counters) (w : W)
      (result : Result DialError ClientPath × W)
      → Open base paths w
      → DialEnds (open_conns w) result
      → ((more : List ClientPath) (w' : W) (d : Counters)
          → Open base more w'
          → Holds base (again more w' d))
      → Holds base (after_try net ctx_done again paths c result)
  unfolding after_try
  after_try_balance ctx_done again paths base c w (ok p, w') h e next =
      next (paths ++ (p ∷ [])) w' c (more-Open base paths p w w' h e)
  after_try_balance ctx_done again paths base c w (err x, w') h e next =
      elim (Bool-cases (ctx_done w')) [
        | inl done ↦ rw done (same-Open base paths w w' h e)
        | inr going ↦ rw going (next paths w' (add_error c) (same-Open base paths w w' h e))
      ]
  after_try_balance ctx_done again paths base c w (panic, w') h e next = absurd e

  available_balance :
      (ctx_done : W → Bool) (specs : List ClientPathSpec) (paths : List ClientPath) (base : List ℕ)
      (w : W) (c : Counters)
      → Open base paths w
      → Holds base (dial_available net ctx_done specs paths w c)
  unfolding dial_available
  available_balance ctx_done [] paths base w c h = h
  available_balance ctx_done (spec ∷ specs) paths base w c h =
      after_try_balance ctx_done (dial_available net ctx_done specs) paths base c w
        (dial_client_path net spec w) h (dial_ends spec w)
        λ more w' d h'. available_balance ctx_done specs more base w' d h'

  -- `dialAvailableClientPaths` leaves open one connection for each path that it returns.
  pub dial_available_balance :
      (ctx_done : W → Bool) (specs : List ClientPathSpec) (w : W) (c : Counters)
      → Holds (open_conns w) (dial_available_client_paths net ctx_done specs w c)
  unfolding dial_available_client_paths
  dial_available_balance ctx_done specs w c =
      available_balance ctx_done specs [] (open_conns w) w c (none-Open w)
