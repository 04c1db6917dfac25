-- ===== src/TunDevice/Opens.antt =====
-- The descriptors that Open takes and gives back.
use Prim.Native.String.{String}
use mvp_vpn_lite.Base.{
  ℕ, ◌≡◌, ◌≢◌, refl, ap, ◌∙◌, Option, none, some, Result, ok, err, panic, List, ◌∷◌,
}
use mvp_vpn_lite.Base.Handles.{without, without_self, New}
use mathlib.Core.Path.{subst}
use mvp_vpn_lite.Io.{IoError}
use mvp_vpn_lite.Client.TunRun.Start.{Opening}
use mvp_vpn_lite.TunDevice.{
  Unix, Device, OpenError, invalid_name, open_failed, nil_file, configure_failed, device_path,
  after_ioctl, after_new_file, after_fd, after_ifreq, open_tun, file_of, linux_tun,
}
use mvp_vpn_lite.TunDevice.Name.{normalize_device_name}

-- What unix.Open gives is a descriptor that was not open. It is open until it is closed, itself or as
-- the file of os.NewFile, which stands for it. The other calls open and close nothing, and no call
-- panics.
pub record Descriptors {Ifreq D : Type 0} (unix : Unix Ifreq D) (open_fds : D → List ℕ)
    : Type 0 where
  pub open_ok :
      (path : String) (d d' : D) (fd : ℕ)
      → unix.open_fd path d ≡ (ok fd, d')
      → New fd (open_fds d) × (open_fds d' ≡ fd ∷ open_fds d)
  pub open_err :
      (path : String) (d d' : D) (e : IoError)
      → unix.open_fd path d ≡ (err e, d')
      → open_fds d' ≡ open_fds d
  pub open-ne-panic : (path : String) (d : D) → (unix.open_fd path d).0 ≢ panic
  pub ifreq-ne-panic : (name : String) → unix.new_ifreq name ≢ panic
  pub new_file_same :
      (fd file : ℕ) (name : String) (d d' : D)
      → unix.new_file fd name d ≡ (some file, d')
      → file ≡ fd
  pub new_file_keeps :
      (fd : ℕ) (name : String) (d : D) → open_fds (unix.new_file fd name d).1 ≡ open_fds d
  pub ioctl_keeps :
      (fd : ℕ) (ifreq : Ifreq) (d : D) → open_fds (unix.tun_set_iff fd ifreq d).1 ≡ open_fds d
  pub ioctl-ne-panic : (fd : ℕ) (ifreq : Ifreq) (d : D) → (unix.tun_set_iff fd ifreq d).0 ≢ panic
  pub close_fd_one : (fd : ℕ) (d : D) → open_fds (unix.close_fd fd d) ≡ without fd (open_fds d)
  pub close_file_one :
      (file : ℕ) (d : D) → open_fds (unix.close_file file d) ≡ without file (open_fds d)

module _ {Ifreq D : Type 0} (unix : Unix Ifreq D) (open_fds : D → List ℕ) where
  -- From the open descriptors n: that of the device too, which is new, and n again with an error.
  abbrev HoldsOne : {E A : Type 0} → (A → ℕ) → List ℕ → Result E A × D → Type 0
  HoldsOne file n (ok a, d) = New (file a) n × (open_fds d ≡ file a ∷ n)
  HoldsOne file n (err e, d) = open_fds d ≡ n
  HoldsOne file n (panic, d) = ⊥

  abbrev file_in : Device → ℕ
  file_in device = device.file

  module _ (laws : Descriptors unix open_fds) where
    ioctl-HoldsOne :
        (n : List ℕ) (file : ℕ) (r : Result IoError Ifreq × D)
        → r.0 ≢ panic
        → New file n
        → open_fds r.1 ≡ file ∷ n
        → HoldsOne file_in n (after_ioctl unix file r)
    unfolding after_ioctl
    ioctl-HoldsOne n file (ok ifreq, d) ne new e = (new, e)
    ioctl-HoldsOne n file (err x, d) ne new e =
        laws.close_file_one file d ∙ ap (without file) e ∙ without_self file n ∙ new
    ioctl-HoldsOne n file (panic, d) ne new e = absurd (ne refl)

    new_file-HoldsOne :
        (n : List ℕ) (fd : ℕ) (ifreq : Ifreq) (d : D) (r : Option ℕ × D)
        → unix.new_file fd device_path d ≡ r
        → New fd n
        → open_fds r.1 ≡ fd ∷ n
        → HoldsOne file_in n (after_new_file unix ifreq fd r)
    unfolding after_new_file
    new_file-HoldsOne n fd ifreq d (none, d') given new e =
        laws.close_fd_one fd d' ∙ ap (without fd) e ∙ without_self fd n ∙ new
    new_file-HoldsOne n fd ifreq d (some file, d') given new e =
        let same = laws.new_file_same fd file device_path d d' given in
        ioctl-HoldsOne n file (unix.tun_set_iff fd ifreq d') (laws.ioctl-ne-panic fd ifreq d')
          (rw same new) (laws.ioctl_keeps fd ifreq d' ∙ rw same e)

    fd-HoldsOne :
        (ifreq : Ifreq) (d : D) (r : Result IoError ℕ × D)
        → unix.open_fd device_path d ≡ r
        → HoldsOne file_in (open_fds d) (after_fd unix ifreq r)
    unfolding after_fd
    fd-HoldsOne ifreq d (ok fd, d') e =
        let (new, one) = laws.open_ok device_path d d' fd e in
        new_file-HoldsOne (open_fds d) fd ifreq d' (unix.new_file fd device_path d') refl new
          (laws.new_file_keeps fd device_path d' ∙ one)
    fd-HoldsOne ifreq d (err x, d') e = laws.open_err device_path d d' x e
    fd-HoldsOne ifreq d (panic, d') e = absurd (laws.open-ne-panic device_path d (ap (λ r. r.0) e))

    ifreq-HoldsOne :
        (r : Result IoError Ifreq) (d : D)
        → r ≢ panic
        → HoldsOne file_in (open_fds d) (after_ifreq unix r d)
    unfolding after_ifreq
    ifreq-HoldsOne (ok ifreq) d ne = fd-HoldsOne (unix.set_uint16 _ ifreq) d _ refl
    ifreq-HoldsOne (err e) d ne = refl
    ifreq-HoldsOne panic d ne = absurd (ne refl)

    file-HoldsOne :
        (n : List ℕ) (r : Result OpenError Device × D)
        → HoldsOne file_in n r
        → HoldsOne (λ file. file) n (file_of unix r)
    unfolding file_of
    file-HoldsOne n (ok device, d) h = h
    file-HoldsOne n (err (invalid_name e), d) h = h
    file-HoldsOne n (err (open_failed e), d) h = h
    file-HoldsOne n (err nil_file, d) h = h
    file-HoldsOne n (err (configure_failed e), d) h = h
    file-HoldsOne n (panic, d) h = h

    open-HoldsOne :
        (name : String) (d : D)
        → HoldsOne (λ file. file) (open_fds d) ((linux_tun unix).open_device name d)
    unfolding linux_tun open_tun
    open-HoldsOne name d =
        file-HoldsOne (open_fds d) (open_tun unix name d)
          (ifreq-HoldsOne (unix.new_ifreq (normalize_device_name name)) d (laws.ifreq-ne-panic _))

    one-panic : (n : List ℕ) (r : Result IoError ℕ × D) → HoldsOne (λ file. file) n r → r.0 ≢ panic
    one-panic n (ok a, d) h e = cc
    one-panic n (err x, d) h e = cc
    one-panic n (panic, d) h e = h

    -- The Linux device is what the client and the server ask of the TUN package, for descriptors: Open
    -- does not panic, and where it gives a device exactly the descriptor of that device, a new one, is
    -- open besides those before; where it fails, at whichever call, exactly those before are open.
    -- Closing the device closes its descriptor and no other, once.
    pub linux_tun-Opening : Opening (linux_tun unix) open_fds
    unfolding linux_tun
    linux_tun-Opening = record {
      open_ok = λ name d d' device e.
          subst (HoldsOne (λ file. file) (open_fds d)) e (open-HoldsOne name d);
      open_err =
          λ name d d' x e. subst (HoldsOne (λ file. file) (open_fds d)) e (open-HoldsOne name d);
      open-ne-panic = λ name d. one-panic (open_fds d) _ (open-HoldsOne name d);
      close_one = λ device d. laws.close_file_one device d;
    }
