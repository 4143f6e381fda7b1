-- ===== src/Ntoa.antt =====
-- reckless/src/ntoa.cpp: conversion of numbers to text.
pub mod Log
pub mod Cursor
pub mod Digits
pub mod Itoa
pub mod Significand
pub mod Float
