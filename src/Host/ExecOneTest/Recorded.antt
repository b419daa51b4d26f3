-- ===== src/Host/ExecOneTest/Recorded.antt =====
-- What `execOneTest` of runners/host/base_test.py does to the results of the run.
use test_vts.Base.{nat_eq}
use test_vts.Host.Records.Tallies.{Reached}
use test_vts.Host.ExecOneTest.{Run}

module _ {X : Type 0} where
  abbrev IsReached : Run X → Type 0
  IsReached r = Reached r.store r.results
