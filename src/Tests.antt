-- ===== src/Tests.antt =====
-- Runs of the model on small inputs.
mod FingerprintTests
mod RawStoreTests
mod EvolutionTests
mod EngineTests
mod PipelineTests
mod QueueTests
mod DriftTests
mod WorkerTests
mod IdsTests
mod StorageTests
mod NormalizationTests
mod UnknownTests
mod ApiTests
mod InferenceTests
mod StructuralTests
mod DeclarativeTests
mod SecretsTests
