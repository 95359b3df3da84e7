-- ===== src/Tests.antt =====
-- Concrete runs of the models.
pub mod Samples
pub mod RegistryRuns
pub mod MappingRuns
pub mod PolicyRuns
pub mod LlmRuns
pub mod MapperRuns
pub mod VerifyRuns
pub mod StatisticsRuns
pub mod CollectorRuns
pub mod ConfigRuns
pub mod Databases
pub mod CheckRuns
pub mod RunnerRuns
pub mod Workflows
pub mod WorkflowRuns
pub mod SettingsRuns
