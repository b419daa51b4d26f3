-- ===== src/Host/ExecOneTest/Added.antt =====
-- Whether `execOneTest` of runners/host/base_test.py adds the record of its test case to the results.
use test_vts.Base.{◌≢◌, nat_eq}
use test_vts.Host.ExecOneTest.{ProcedureEnd, procedure_aborted, procedure_interrupted}

-- `_exec_procedure_func` lets TestAbortAll through, and what is no Exception.
abbrev pub IsCalm : ProcedureEnd → Type 0
IsCalm done = (done ≢ procedure_aborted) × (done ≢ procedure_interrupted)
