-- ===== src/TunDevice/Tests.antt =====
-- Device names, and Open on a system that lists its open descriptors.
use mvp_vpn_lite.Base.{ℕ, suc, ◌≡◌, refl, arith, some, List, [], ◌∷◌, ok, err, ◌==◌, if◌then◌else◌}
use mvp_vpn_lite.Base.Handles.{without}
use mvp_vpn_lite.Client.Dial.Sample.{sum, New-above}
use mvp_vpn_lite.Io.{other_error}
use mvp_vpn_lite.Client.TunRun.Start.{Opening}
use mvp_vpn_lite.TunDevice.{
  Unix, open_tun, after_ifreq, after_fd, after_new_file, after_ioctl, linux_tun,
}
use mvp_vpn_lite.TunDevice.Name.{is_space, trim_left, trim_right, trim_space, normalize_device_name}
use mvp_vpn_lite.TunDevice.Opens.{Descriptors, linux_tun-Opening}

inner_space_stays : normalize_device_name " tun 7\n" ≡ "tun 7"
unfolding normalize_device_name trim_space trim_left trim_right is_space
inner_space_stays = refl

-- A request is its flags, of which the driver takes those of TUN without packet information only; the
-- open descriptors are listed.
abbrev system : Unix ℕ (List ℕ)
system = record {
  new_ifreq = λ name. ok 0;
  set_uint16 = λ flags request. flags;
  ifreq_name = λ request. "tun0";
  open_fd = λ path n. (ok (suc (sum n)), suc (sum n) ∷ n);
  close_fd = λ fd n. without fd n;
  new_file = λ fd name n. (some fd, n);
  tun_set_iff = λ fd request n. (if request == 0x1001 then ok request else err (other_error 1), n);
  close_file = λ file n. without file n;
}

opens : open_tun system "" (4 ∷ []) ≡ (ok (record { file = 5; name = "tun0" }), 5 ∷ 4 ∷ [])
unfolding open_tun after_ifreq after_fd after_new_file after_ioctl
opens = refl

system-Descriptors : Descriptors system (λ n. n)
system-Descriptors = record {
  open_ok = λ path d d' fd e.
      let same : fd ≡ suc (sum d) = ground arith in
      (rw same (New-above d (suc (sum d)) (omega arith)), ground arith);
  open_err = λ path d d' x e. ground arith;
  open-ne-panic = λ path d e. cc;
  ifreq-ne-panic = λ name e. cc;
  new_file_same = λ fd file name d d' e. ground arith;
  new_file_keeps = λ fd name d. refl;
  ioctl_keeps = λ fd request d. refl;
  ioctl-ne-panic = λ fd request d e. ground arith;
  close_fd_one = λ fd d. refl;
  close_file_one = λ file d. refl;
}

linux_tun-Opening_example : Opening (linux_tun system) (λ n. n)
linux_tun-Opening_example = linux_tun-Opening system (λ n. n) system-Descriptors
