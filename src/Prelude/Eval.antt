-- ===== src/Prelude/Eval.antt =====
-- One name for the containers, for the `unfolding` line of a test by evaluation.
use sloff.Prelude.Lists.{any, all, keep}
use sloff.Prelude.Keys.{contains, erase}
use sloff.Prelude.Maps.{lookup, insert}
use sloff.Prelude.Sort.{sort}
use sloff.Prelude.Text.{str_ltb, has_prefix}

unfoldable pub containers : Unit {0}
unfolding any all keep contains erase lookup insert sort str_ltb has_prefix
containers = tt
