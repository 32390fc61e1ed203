-- ===== src/Config/Merging.antt =====
-- Merge of impl/config/merge.go against the rule in its comment.
use ociregistry.Base.{◌≡◌, refl, Bool, not, arith, Str, is_empty, if◌then◌else◌}
use ociregistry.Base.Int.{ℤ, is_zero}
use ociregistry.Config.{Configuration, FromCmdLine, merge}

-- The settings that both the file and the command line can give.
pub data TextSetting : Type 0 where
  log_level log_file config_file image_path preload_images image_file resolve_ref : TextSetting
  os arch default_ns host : TextSetting

pub data NumberSetting : Type 0 where
  port pull_timeout health metrics : NumberSetting

pub data Switch : Type 0 where
  always_pull_latest air_gapped hello_world : Switch

abbrev pub text_of : TextSetting → Configuration → Str
text_of log_level c = c.log_level
text_of log_file c = c.log_file
text_of config_file c = c.config_file
text_of image_path c = c.image_path
text_of preload_images c = c.preload_images
text_of image_file c = c.image_file
text_of resolve_ref c = c.resolve_ref
text_of os c = c.os
text_of arch c = c.arch
text_of default_ns c = c.default_ns
text_of host c = c.host

abbrev pub text_given : TextSetting → FromCmdLine → Bool
text_given log_level f = f.log_level
text_given log_file f = f.log_file
text_given config_file f = f.config_file
text_given image_path f = f.image_path
text_given preload_images f = f.preload_images
text_given image_file f = f.image_file
text_given resolve_ref f = f.resolve_ref
text_given os f = f.os
text_given arch f = f.arch
text_given default_ns f = f.default_ns
text_given host f = f.host

abbrev pub number_of : NumberSetting → Configuration → ℤ
number_of port c = c.port
number_of pull_timeout c = c.pull_timeout
number_of health c = c.health
number_of metrics c = c.metrics

abbrev pub number_given : NumberSetting → FromCmdLine → Bool
number_given port f = f.port
number_given pull_timeout f = f.pull_timeout
number_given health f = f.health
number_given metrics f = f.metrics

abbrev pub switch_of : Switch → Configuration → Bool
switch_of always_pull_latest c = c.always_pull_latest
switch_of air_gapped c = c.air_gapped
switch_of hello_world c = c.hello_world

abbrev pub switch_given : Switch → FromCmdLine → Bool
switch_given always_pull_latest f = f.always_pull_latest
switch_given air_gapped f = f.air_gapped
switch_given hello_world f = f.hello_world

-- The rule that the comment of Merge gives: the user's value; else the file's, if it has one; else the
-- default that the parsed command line holds.
abbrev pub effective : {A : Type 0} → Bool → Bool → A → A → A
effective given unset cmdline file = if given then cmdline else if unset then cmdline else file

merge-text :
    (from : FromCmdLine) (cfg file : Configuration) (x : TextSetting)
    → text_of x (merge from cfg file)
      ≡ effective (text_given x from) (is_empty (text_of x file)) (text_of x cfg) (text_of x file)
unfolding merge
merge-text from cfg file log_level = ground arith
merge-text from cfg file _ = ground arith

merge-number :
    (from : FromCmdLine) (cfg file : Configuration) (x : NumberSetting)
    → number_of x (merge from cfg file)
      ≡ effective
          (number_given x from)
          (is_zero (number_of x file))
          (number_of x cfg)
          (number_of x file)
unfolding merge
merge-number from cfg file port = ground arith
merge-number from cfg file _ = ground arith

merge-switch :
    (from : FromCmdLine) (cfg file : Configuration) (x : Switch)
    → switch_of x (merge from cfg file)
      ≡ effective
          (switch_given x from)
          (not (switch_of x file))
          (switch_of x cfg)
          (switch_of x file)
unfolding merge
merge-switch from cfg file always_pull_latest = ground arith
merge-switch from cfg file _ = ground arith

-- After Merge each of the eighteen settings of text, numbers and switches has the value that the user
-- gave; else the value of the file, where that is not empty, zero or false; else the default. The
-- upstream registries and the server's TLS settings are the file's.
pub merge_precedence :
    (from : FromCmdLine) (cfg file : Configuration) (x : TextSetting) (n : NumberSetting)
    (b : Switch)
    → (text_of x (merge from cfg file)
        ≡ effective
            (text_given x from)
            (is_empty (text_of x file))
            (text_of x cfg)
            (text_of x file))
      × (number_of n (merge from cfg file)
          ≡ effective
              (number_given n from)
              (is_zero (number_of n file))
              (number_of n cfg)
              (number_of n file))
      × (switch_of b (merge from cfg file)
          ≡ effective
              (switch_given b from)
              (not (switch_of b file))
              (switch_of b cfg)
              (switch_of b file))
      × ((merge from cfg file).registries ≡ file.registries)
      × ((merge from cfg file).server_tls_cfg ≡ file.server_tls_cfg)
merge_precedence from cfg file x n b = (
  merge-text from cfg file x,
  merge-number from cfg file n,
  merge-switch from cfg file b,
  unfold merge in refl,
  unfold merge in refl,
)
