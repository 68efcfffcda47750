-- ===== src/Circuits/Entrypoints.antt =====
-- The programs bin/header_range_1024.rs, bin/header_range_2048.rs, bin/header_range_mocha.rs,
-- bin/next_header.rs and bin/next_header_mocha.rs: the circuits at the sizes for which they are
-- built, with the configurations of circuits/config.rs. The chain's id is in the library.
pub mod Range
use blobstreamx.Base.{ℕ, Option}
use blobstreamx.Base.Bytes.{Bytes}
use blobstreamx.Circuits.Programs.{Library, combined_skip, combined_step}

-- `SKIP_MAX` of a `TendermintConfig`.
pub record Config : Type 0 where
  pub skip_max : ℕ

abbrev pub celestia_blobstreamx_config_1024 : Config
celestia_blobstreamx_config_1024 = record { skip_max = 1024 }

abbrev pub celestia_blobstreamx_config_2048 : Config
celestia_blobstreamx_config_2048 = record { skip_max = 2048 }

abbrev pub mocha_4_blobstreamx_config_1024 : Config
mocha_4_blobstreamx_config_1024 = record { skip_max = 1024 }

module _ (lib : Library) where
  -- `NB_MAP_JOBS` is 32, and `BATCH_SIZE` 32 or 64.
  unfoldable pub header_range_1024 : Bytes → Option Bytes
  header_range_1024 = combined_skip lib celestia_blobstreamx_config_1024.skip_max 5 32

  unfoldable pub header_range_2048 : Bytes → Option Bytes
  header_range_2048 = combined_skip lib celestia_blobstreamx_config_2048.skip_max 5 64

  unfoldable pub header_range_mocha : Bytes → Option Bytes
  header_range_mocha = combined_skip lib mocha_4_blobstreamx_config_1024.skip_max 5 32

  abbrev pub next_header : Bytes → Option Bytes
  next_header = combined_step lib

  abbrev pub next_header_mocha : Bytes → Option Bytes
  next_header_mocha = combined_step lib

  -- A header range program with its configuration.
  pub data HeaderRange : Config → (Bytes → Option Bytes) → Type 0 where
    celestia_1024 : HeaderRange celestia_blobstreamx_config_1024 header_range_1024
    celestia_2048 : HeaderRange celestia_blobstreamx_config_2048 header_range_2048
    mocha_1024 : HeaderRange mocha_4_blobstreamx_config_1024 header_range_mocha
