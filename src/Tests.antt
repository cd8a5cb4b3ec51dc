-- ===== src/Tests.antt =====
-- Runs of the code on concrete inputs.
mod BatchRuns
mod Demo
mod WorkerRuns
mod StepRun
mod PassRun
mod TextRuns
mod SqsRuns
mod StatusRuns
mod FleetRuns
mod HttpRuns
mod TokRuns
mod ClientRuns
mod BoardRun
mod AgeRuns
