-- ===== src/Beacon/Config/Loading.antt =====
-- `Clone` and `LoadFromFile` of beacon/db/config.go.
use osha.Base.{
  ◌≡◌, ◌↔◌, sym, subst, ap, refl, Bool, true, false, Option, none, some, Text, ok, fail, arith, ◌<◌,
  if◌then◌else◌,
}
use osha.Beacon.External.{Packages}
use osha.Beacon.Config.{
  Time, is_zero, Config, Files, decode, with_genesis_time, does_not_exist, cannot_read,
  cannot_unmarshal, load_from_file, clone_config, new_default_config,
}

-- A clone has each field of the original, but for the first execution block index, which is 0. So it is
-- the original exactly if the original begins with block 0, as a default configuration does.
pub clone_config_lem :
    (core : Packages) (now : Time) (c : Config)
    → (clone_config c ≡ record c { first_execution_block_index = 0 })
      × ((clone_config c ≡ c) ↔ (c.first_execution_block_index ≡ 0))
      × (clone_config (new_default_config core now) ≡ new_default_config core now)
unfolding clone_config new_default_config
clone_config_lem core now c = (
  refl,
  (
    λ e. sym (ap (λ (d : Config). d.first_execution_block_index) e),
    λ e i. record c { first_execution_block_index = sym e i },
  ),
  refl,
)

with_genesis_time-genesis_time :
    (now : Time) (c : Config)
    → 0 < now.seconds
    → is_zero (with_genesis_time now c).genesis_time ≡ false
unfolding with_genesis_time
with_genesis_time-genesis_time now c pos = ground arith

loaded :
    (now : Time) (path : Text) (o : Option Config) (c : Config)
    → 0 < now.seconds
    → (elim o [
      | none ↦ fail (cannot_unmarshal path)
      | some config ↦ ok (with_genesis_time now config)
    ])
      ≡ ok c
    → is_zero c.genesis_time ≡ false
loaded now path none c pos e = cc
loaded now path (some d) c pos e =
    let same : with_genesis_time now d ≡ c = cc e in
    subst (λ (k : Config). is_zero k.genesis_time ≡ false) same
      (with_genesis_time-genesis_time now d pos)

-- A configuration that is loaded from a file has a genesis time, also where the file has none,
-- provided that the clock is not at the zero time.
pub load_from_file-genesis_time :
    (files : Files) (now : Time) (path : Text) (c : Config)
    → 0 < now.seconds
    → load_from_file files now path ≡ ok c
    → is_zero c.genesis_time ≡ false
unfolding load_from_file
load_from_file-genesis_time files now path c pos =
    by_file (files.exists path) (files.read_file path) (decode files path)
  where
    by_file :
        (b : Bool) (o : Option Text) (d : Text → Option Config)
        → (if b
            then elim o [
              | none ↦ fail (cannot_read path)
              | some content ↦ elim (d content) [
                | none ↦ fail (cannot_unmarshal path)
                | some config ↦ ok (with_genesis_time now config)
              ]
            ]
            else fail (does_not_exist path))
          ≡ ok c
        → is_zero c.genesis_time ≡ false
    by_file false o d e = cc
    by_file true none d e = cc
    by_file true (some t) d e = loaded now path (d t) c pos e
