-- ===== src/ClientCommand/Identifier.antt =====
-- The identifier of the demo client's requests.
use Prim.Native.String.{String}
use mvp_vpn_lite.Base.{
  ℕ, ◌%◌, ◌^◌, ◌<◌, ◌≡◌, refl, arith, ap, Bool, true, false, Option, List, ok, ltb, fail_if,
  map_err, ◌>>◌, if◌then◌else◌, bind-eq-ok,
}
use mvp_vpn_lite.Net.{Ip}
use mvp_vpn_lite.Client.Run.{ClientConfig}
use mvp_vpn_lite.Client.TunRun.{TunClientConfig}
use mvp_vpn_lite.Client.TunRun.Start.{map_err-eq-ok}
use mvp_vpn_lite.EnvConfig.{Parsers}
use mvp_vpn_lite.Flags.{flag_or}
use mvp_vpn_lite.ClientCommand.{
  ClientFlags, ClientDefaults, CommandError, bad_environment, print_version, run_tun, run_demo,
  client_defaults, demo_client_config, client_command,
}

runs_demo :
    (version tun too_large : Bool) (t : TunClientConfig) (x : CommandError)
    (demo cfg : ClientConfig)
    → (if version
        then ok print_version
        else if tun
        then ok (run_tun t)
        else (fail_if too_large x >> ok (run_demo demo)))
      ≡ ok (run_demo cfg)
    → (too_large ≡ false) × (demo ≡ cfg)
runs_demo true tun too_large t x demo cfg e = absurd (cc e)
runs_demo false true too_large t x demo cfg e = absurd (cc e)
runs_demo false false true t x demo cfg e = absurd (cc e)
runs_demo false false false t x demo cfg e = (refl, cc e)

cut_kept : (n m : ℕ) → ltb 0xffff n ≡ false → n % 2 ^ 16 ≡ m → m ≡ n
cut_kept n m fits e = ground arith

cut_bound : (n m : ℕ) → n % 2 ^ 16 ≡ m → m < 65536
cut_bound n m e = ground arith

module _ (lookup_env : String → Option String) (parsers : Parsers) (flags : ClientFlags)
    (parse_ip : String → Ip) (bytes_of : String → List ℕ) where
  -- The demo client is run only with an environment that parses, and its requests carry the identifier
  -- of the flag, or of the environment where the flag is not given, unchanged: it fits in 16 bits.
  demo_identifier :
      (cfg : ClientConfig)
      → client_command lookup_env parsers flags parse_ip bytes_of ≡ ok (run_demo cfg)
      → (defaults : ClientDefaults) × (client_defaults lookup_env parsers ≡ ok defaults)
        × (cfg.identifier ≡ flag_or flags.identifier defaults.identifier)
        × (cfg.identifier < 65536)
  unfolding client_command demo_client_config
  demo_identifier cfg e =
      let (defaults, mapped, e) =
        bind-eq-ok (map_err bad_environment (client_defaults lookup_env parsers)) _ (run_demo cfg)
          e in
      let (fits, same) = runs_demo _ _ _ _ _ _ cfg e in
      let cut = ap (λ c. c.identifier) same in
      (
        defaults,
        map_err-eq-ok bad_environment _ defaults mapped,
        cut_kept (flag_or flags.identifier defaults.identifier) cfg.identifier fits cut,
        cut_bound (flag_or flags.identifier defaults.identifier) cfg.identifier cut,
      )
