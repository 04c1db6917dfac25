-- ===== src/Client/TunRun/Changes.antt =====
-- The connections that are open when a path is added to the set, or leaves it and is closed.
use mvp_vpn_lite.Base.{
  ℕ, ◌≡◌, ◌≢◌, refl, ◌∙◌, sym, ap, Option, none, some, List, [], ◌∷◌, All, Option-cases, inl, inr,
}
use mvp_vpn_lite.Base.Handles.{without, without_self, without_comm, New}
use mvp_vpn_lite.Client.Path.{ClientPath}
use mvp_vpn_lite.Client.PathSet.{ClientPathSet, replace_path, append_path, add, remove_path, remove}
use mvp_vpn_lite.Client.PathSet.Contents.{append_path-All, replace_path-All, remove_path-All}
use mvp_vpn_lite.Client.PathSet.Invariant.{replace_view, remove_view}
use mvp_vpn_lite.Client.Dial.{Network, close_client_path}
use mvp_vpn_lite.Client.Dial.Balance.{Counting, close_path_balance}
use mvp_vpn_lite.Client.Dial.Closed.{closed, closed-without}

abbrev HasConn : ClientPath → Type 0
HasConn p = p.conn ≢ 0

append_path-closed :
    (paths : List ClientPath) (p : ClientPath) (l : List ℕ)
    → closed (append_path paths p) l ≡ without p.conn (closed paths l)
unfolding append_path closed
append_path-closed [] p l = refl
append_path-closed (q ∷ rest) p l = append_path-closed rest p (without q.conn l)

replace_path-closed :
    (p : ClientPath) (paths : List ClientPath) {old : ClientPath} {new : List ClientPath}
    (l : List ℕ)
    → replace_path p paths ≡ some (old, new)
    → closed new (without old.conn l) ≡ without p.conn (closed paths l)
unfolding closed
replace_path-closed p [] l e = unfold replace_path in absurd (cc)
replace_path-closed p (q ∷ rest) {old} l e = elim (replace_view p q rest e) [
  | inl (same, is_old, is_new) ↦ rw (is_old, is_new) (closed-without rest p.conn (without q.conn l))
  | inr (new', differ, found, is_new) ↦ rw is_new (
      ap (closed new') (without_comm q.conn old.conn l)
      ∙ replace_path-closed p rest (without q.conn l) found)
]

remove_path-closed :
    (stream : ℕ) (paths : List ClientPath) {old : ClientPath} {new : List ClientPath} (l : List ℕ)
    → remove_path stream paths ≡ some (old, new)
    → closed new (without old.conn l) ≡ closed paths l
unfolding closed
remove_path-closed stream [] l e = unfold remove_path in absurd (cc)
remove_path-closed stream (q ∷ rest) {old} l e = elim (remove_view stream q rest e) [
  | inl (same, is_old, is_new) ↦ rw (is_old, is_new) refl
  | inr (new', differ, found, is_new) ↦ rw is_new (
      ap (closed new') (without_comm q.conn old.conn l)
      ∙ remove_path-closed stream rest (without q.conn l) found)
]

-- The connections without those of the paths and a new one.
without-closed :
    (paths : List ClientPath) (conn : ℕ) (l : List ℕ)
    → New conn l
    → without conn (closed paths (conn ∷ l)) ≡ closed paths l
without-closed paths conn l new =
    sym (closed-without paths conn (conn ∷ l)) ∙ ap (closed paths) (without_self conn l ∙ new)

module _ {W : Type 0} (net : Network W) (open_conns : W → List ℕ) (laws : Counting net open_conns)
    (base : List ℕ) where
  -- Besides the connections of the paths exactly those of the base are open.
  pub record Held (set : ClientPathSet) (w : W) : Type 0 where
    pub connected : All HasConn set.paths
    pub apart : closed set.paths (open_conns w) ≡ base

  -- When the path that has left the set, if there is one, is closed.
  abbrev pub HeldAfter : Option ClientPath × ClientPathSet → W → Type 0
  HeldAfter (none, set) w = Held set w
  HeldAfter (some old, set) w = Held set (close_client_path net old w)

  pub remove-HeldAfter :
      (s : ClientPathSet) (stream : ℕ) (w : W) → Held s w → HeldAfter (remove s stream) w
  unfolding remove
  remove-HeldAfter s stream w h = elim (Option-cases (remove_path stream s.paths)) [
    | inl missing ↦ rw (missing, remove) h
    | inr ((old, new), found) ↦
        let (all, left, counted) = remove_path-All HasConn stream s.paths found h.connected in
        rw (found, remove)
          (record {
            connected = all;
            apart =
                ap (closed new) (close_path_balance net open_conns laws old w left)
                ∙ remove_path-closed stream s.paths (open_conns w) found
                ∙ h.apart;
          })
  ]

  -- A path with a new connection, opened from those of w.
  pub add-HeldAfter :
      (s : ClientPathSet) (p : ClientPath) (w w' : W)
      → Held s w
      → p.conn ≢ 0
      → New p.conn (open_conns w)
      → open_conns w' ≡ p.conn ∷ open_conns w
      → HeldAfter (add s p) w'
  unfolding add
  add-HeldAfter s p w w' h ne new e = elim (Option-cases (replace_path p s.paths)) [
    | inl missing ↦
        let (all, counted) = append_path-All HasConn s.paths p h.connected ne in
        rw (missing, add)
          (record {
            connected = all;
            apart =
                ap (closed (append_path s.paths p)) e
                ∙ append_path-closed s.paths p (p.conn ∷ open_conns w)
                ∙ without-closed s.paths p.conn (open_conns w) new
                ∙ h.apart;
          })
    | inr ((old, rest), found) ↦
        let (all, left, counted) = replace_path-All HasConn p s.paths found h.connected ne in
        rw (found, add)
          (record {
            connected = all;
            apart =
                ap (closed rest)
                  (close_path_balance net open_conns laws old w' left ∙ ap (without old.conn) e)
                ∙ replace_path-closed p s.paths (p.conn ∷ open_conns w) found
                ∙ without-closed s.paths p.conn (open_conns w) new
                ∙ h.apart;
          })
  ]
