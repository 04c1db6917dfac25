-- ===== src/Client/Dial/Closed.antt =====
-- Open handles, with those of paths and without them.
use mvp_vpn_lite.Base.{ℕ, ◌≡◌, refl, ◌∙◌, sym, ap, List, [], ◌∷◌, ◌++◌}
use mvp_vpn_lite.Base.Handles.{without, without_self, without_comm, New}
use mvp_vpn_lite.Client.Path.{ClientPath}

-- The handles without those of the paths.
unfoldable pub closed : List ClientPath → List ℕ → List ℕ
closed [] l = l
closed (p ∷ paths) l = closed paths (without p.conn l)

-- The handles with those of the paths, of which the last was opened last.
unfoldable pub opened : List ClientPath → List ℕ → List ℕ
opened [] l = l
opened (p ∷ paths) l = opened paths (p.conn ∷ l)

pub closed-without :
    (paths : List ClientPath) (h : ℕ) (l : List ℕ)
    → closed paths (without h l) ≡ without h (closed paths l)
unfolding closed
closed-without [] h l = refl
closed-without (p ∷ paths) h l =
    rw (without_comm p.conn h l) (closed-without paths h (without p.conn l))

pub closed-append :
    (paths : List ClientPath) (p : ClientPath) (l : List ℕ)
    → closed (paths ++ (p ∷ [])) l ≡ without p.conn (closed paths l)
unfolding closed
closed-append [] p l = refl
closed-append (q ∷ paths) p l = closed-append paths p (without q.conn l)

pub opened-append :
    (paths : List ClientPath) (p : ClientPath) (l : List ℕ)
    → opened (paths ++ (p ∷ [])) l ≡ p.conn ∷ opened paths l
unfolding opened
opened-append [] p l = refl
opened-append (q ∷ paths) p l = opened-append paths p (q.conn ∷ l)

-- A new connection, and its path behind the others.
pub closed-New :
    (paths : List ClientPath) (p : ClientPath) (l : List ℕ)
    → New p.conn l
    → closed (paths ++ (p ∷ [])) (p.conn ∷ l) ≡ closed paths l
closed-New paths p l new =
    closed-append paths p (p.conn ∷ l)
    ∙ sym (closed-without paths p.conn (p.conn ∷ l))
    ∙ ap (closed paths) (without_self p.conn l ∙ new)
