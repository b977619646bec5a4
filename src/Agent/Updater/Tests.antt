-- ===== src/Agent/Updater/Tests.antt =====
-- A release that is offered to an agent, and the theorems at it.
use roomler.Prelude.{◌≡◌, refl, true, false, none, some, [], ◌∷◌, text, strip_prefix, trim_start}
use roomler.Agent.Updater.{
  GithubAsset, GithubRelease, Host, linux, update_ready, check_once, fetch_latest_release,
  pick_latest_release, pick_asset_for_platform, download_asset, parse_version, is_newer, outranks,
  split,
}
use roomler.Agent.Updater.Ready.{Passed, check_once-Passed}

abbrev asset : GithubAsset
asset = record { name = text "agent_amd64.deb"; browser_download_url = text "u"; digest = none }

abbrev release : GithubRelease
release = record { tag_name = text "agent-v0.2.0"; assets = asset ∷ []; draft = false }

abbrev host : Host
host = record {
  platform = linux;
  current = text "0.1.9";
  proxy = some (release ∷ []);
  github = none;
  by_tag = λ tag. none;
  download = λ url. some (record { len = 2000000; sha256 = [] });
  writes = λ name. some name;
}

is_ready :
    check_once host ≡ update_ready (text "0.1.9") (text "agent-v0.2.0") (text "agent_amd64.deb")
unfolding check_once fetch_latest_release pick_latest_release pick_asset_for_platform download_asset
    parse_version is_newer outranks split strip_prefix trim_start
is_ready = refl

check_once-Passed_example :
    Passed host (text "0.1.9") (text "agent-v0.2.0") (text "agent_amd64.deb")
check_once-Passed_example =
    check_once-Passed host (text "0.1.9") (text "agent-v0.2.0") (text "agent_amd64.deb") is_ready

newer : is_newer (text "agent-v0.2.0") (text "0.1.9") ≡ true
unfolding parse_version is_newer outranks split strip_prefix trim_start
newer = refl

newer' : is_newer (text "0.1.9") (text "v0.1.8-rc1") ≡ true
unfolding parse_version is_newer outranks split strip_prefix trim_start
newer' = refl
